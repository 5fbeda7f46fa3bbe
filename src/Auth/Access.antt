-- ===== src/Auth/Access.antt =====
-- controller/gateway/auth.go: `AccessControl`, which serves some callers without a key. What the
-- standard library reads in an address is an argument: the direct peer, and the address in a text.
use phoneborg.Shared.{
  ◌≡◌, refl, ◌⊎◌, inl, inr, ◌↔◌, Bool, true, false, not, ◌&&◌, Option, none, some, List, String,
  str_eq, if◌then◌else◌, arith, Option-cases, any, trim, before_comma, is_some,
}
use phoneborg.Auth.{StaticKeys, Headers, key_owner, Error, unauthorized, remote_requires_key}

pub data Mode : Type 0 where
  local_access keys_access open_access : Mode

-- Who a request is served as, or why it is refused.
pub data Access : Type 0 where
  served_as : String → Access
  refused : Error → Access

-- The answer, from the owner of the key, whether keys are enforced, the mode, and whether the caller
-- is trusted.
unfoldable pub decide : Option String → Bool → Mode → Bool → Access
decide (some name) enforced mode trusted = served_as name
decide none true mode trusted = refused unauthorized
decide none false keys_access trusted = refused unauthorized
decide none false open_access trusted = served_as "anonymous"
decide none false local_access true = served_as "local"
decide none false local_access false = refused remote_requires_key

abbrev pub is_served : Access → Bool
is_served (served_as name) = true
is_served (refused e) = false

decide-served :
    {T : Type 0} (o : Option String) (enforced : Bool) (mode : Mode) (trusted : Bool)
    → (trusted ≡ true) ↔ T
    → (is_served (decide o enforced mode trusted) ≡ true) ↔ (
        (is_some o ≡ true)
        ⊎ ((enforced ≡ false) × ((mode ≡ open_access) ⊎ ((mode ≡ local_access) × T))))
unfolding decide
decide-served (some name) enforced mode trusted k = ((λ _. inl refl), λ _. refl)
decide-served none true mode trusted k =
    ((λ t. absurd (ground arith)), λ t. absurd (ground (arith, t)))
decide-served none false keys_access trusted k =
    ((λ t. absurd (ground arith)), λ t. absurd (ground (arith, t)))
decide-served none false open_access trusted k = ((λ t. inr (refl, inl refl)), λ _. refl)
decide-served none false local_access true k = ((λ t. inr (refl, inr (refl, k.0 refl))), λ _. refl)
decide-served {T = T} none false local_access false k = ((λ t. absurd (ground arith)), entered)
  where
    entered :
        (false ≡ true)
          ⊎ ((false ≡ false) × ((local_access ≡ open_access) ⊎ ((local_access ≡ local_access) × T)))
        → false ≡ true
    entered (inl e) = e
    entered (inr (_, inl e)) = absurd (ground (arith, e))
    entered (inr (_, inr (_, t))) = k.1 t

module _ {Ip : Type 0} (parse_ip : String → Option Ip) (hash_key : String → String) where
  -- A list of networks, each as the test of its members.
  abbrev pub contains : List (Ip → Bool) → Ip → Bool
  contains nets ip = any (λ n. n ip) nets

  -- `remoteIP`: the direct peer (`none` if its address cannot be read), or the client that a trusted
  -- proxy forwards.
  unfoldable pub remote_ip : Option Ip → Headers → List (Ip → Bool) → Option Ip
  remote_ip none h proxies = none
  remote_ip (some peer) h proxies =
      if contains proxies peer && not (str_eq h.forwarded_for "")
      then elim (parse_ip (trim (before_comma h.forwarded_for))) [
        | some ip ↦ some ip
        | none ↦ some peer
      ]
      else some peer

  pub record AccessControl : Type 0 where
    pub keys : StaticKeys
    pub mode : Mode
    pub trusted : List (Ip → Bool)
    pub proxies : List (Ip → Bool)

  unfoldable pub is_trusted : AccessControl → Option Ip → Headers → Bool
  is_trusted a peer h = elim (remote_ip peer h a.proxies) [
    | none ↦ false
    | some ip ↦ contains a.trusted ip
  ]

  -- `AccessControl.Authenticate`
  unfoldable pub authenticate : AccessControl → Option Ip → Headers → Access
  unfolding decide
  authenticate a peer h =
      decide (key_owner hash_key a.keys h) a.keys.enforced a.mode (is_trusted a peer h)

  remote_ip_direct :
      (peer : Ip) (h : Headers) (proxies : List (Ip → Bool))
      → contains proxies peer ≡ false
      → remote_ip (some peer) h proxies ≡ some peer
  unfolding remote_ip
  remote_ip_direct peer h proxies e = rw e refl

  is_trusted_direct :
      (a : AccessControl) (peer : Ip) (h : Headers)
      → contains a.proxies peer ≡ false
      → is_trusted a (some peer) h ≡ contains a.trusted peer
  unfolding is_trusted
  is_trusted_direct a peer h e = rw (remote_ip_direct peer h a.proxies e, is_trusted) refl

  -- A caller that is no trusted proxy cannot change how it is treated by the header that proxies set:
  -- two requests with one key from a peer outside the proxies' networks are answered alike, in
  -- every mode.
  authenticate_forwarded :
      (a : AccessControl) (peer : Ip) (h g : Headers)
      → contains a.proxies peer ≡ false
      → key_owner hash_key a.keys h ≡ key_owner hash_key a.keys g
      → authenticate a (some peer) h ≡ authenticate a (some peer) g
  unfolding authenticate
  authenticate_forwarded a peer h g outside same =
      rw (same, is_trusted_direct a peer h outside, is_trusted_direct a peer g outside) refl

  -- Who is served without a key: nobody once keys are enforced or are the mode; everybody in the open
  -- mode; in the local mode exactly the callers whose address is trusted.
  abbrev pub MayEnter : AccessControl → Option Ip → Headers → Type 0
  MayEnter a peer h =
      (a.keys.enforced ≡ false)
      × ((a.mode ≡ open_access)
          ⊎ ((a.mode ≡ local_access)
              × ((ip : Ip) × (remote_ip peer h a.proxies ≡ some ip)
                  × (contains a.trusted ip ≡ true))))

  is_trusted_iff :
      (a : AccessControl) (peer : Option Ip) (h : Headers)
      → (is_trusted a peer h ≡ true)
        ↔ ((ip : Ip) × (remote_ip peer h a.proxies ≡ some ip) × (contains a.trusted ip ≡ true))
  unfolding is_trusted
  is_trusted_iff a peer h = elim (Option-cases (remote_ip peer h a.proxies)) [
    | inl e ↦ (
      (λ t. absurd (ground (arith, rw (e, is_trusted) at t))),
      λ (ip, q, t). rw (q, is_trusted) t,
    )
    | inr (ip, e) ↦ ((λ t. (ip, e, rw (e, is_trusted) at t)), λ (ip', q, t). rw (q, is_trusted) t)
  ]

  -- A request is served exactly if it carries a known key, or its caller may enter without one.
  pub authenticate-MayEnter :
      (a : AccessControl) (peer : Option Ip) (h : Headers)
      → (is_served (authenticate a peer h) ≡ true)
        ↔ ((is_some (key_owner hash_key a.keys h) ≡ true) ⊎ MayEnter a peer h)
  unfolding authenticate
  authenticate-MayEnter a peer h =
      decide-served (key_owner hash_key a.keys h) a.keys.enforced a.mode (is_trusted a peer h)
        (is_trusted_iff a peer h)
