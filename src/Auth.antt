-- ===== src/Auth.antt =====
-- controller/gateway/auth.go: API keys and who may use the gateway. The hash of a key is an
-- argument; a new key is 32 random bytes, given here as a text.
pub mod Index
pub mod Keys
pub mod Access
pub mod Tests
use phoneborg.Shared.{
  ℕ, zero, suc, ◌+◌, Bool, true, false, not, ◌&&◌, ◌||◌, Option, none, some, List, [], ◌∷◌, ◌++◌,
  String, str_eq, ltb, leb, ◌==◌, if◌then◌else◌, lookup, insert, length, keep, any, codes, trim,
  cut_prefix, before_comma,
}

pub record KeyEntry : Type 0 where
  pub name : String
  pub hash : String
  pub created : Option ℕ

-- `file` is what the backing file holds, `none` for a store in memory.
pub record StaticKeys : Type 0 where
  pub file : Option (List KeyEntry)
  pub enforced : Bool
  pub entries : List KeyEntry
  pub by_hash : List (String × String)

pub data Error : Type 0 where
  unauthorized remote_requires_key key_exists key_unknown bad_name no_keys not_written not_read :
      Error

-- `[A-Za-z0-9._-]`
abbrev pub is_key_char : ℕ → Bool
is_key_char c =
    (leb 65 c && leb c 90)
    || (leb 97 c && leb c 122)
    || (leb 48 c && leb c 57)
    || c == 46
    || c == 95
    || c == 45

abbrev pub all_key_chars : List ℕ → Bool
all_key_chars [] = true
all_key_chars (c ∷ cs) = is_key_char c && all_key_chars cs

-- `ValidKeyName`
unfoldable pub valid_key_name : String → Bool
valid_key_name name =
    all_key_chars (codes name)
    && leb 1 (length (codes name))
    && leb (length (codes name)) 64
    && not (str_eq name "anonymous")
    && not (str_eq name "admin")

-- The loop that fills the index.
abbrev pub index_into : List (String × String) → List KeyEntry → List (String × String)
index_into m [] = m
index_into m (e ∷ es) = index_into (insert e.hash e.name m) es

-- `NewStaticKeys`, and `set`
abbrev pub new_keys : Bool → StaticKeys
new_keys on_file = record {
  file = if on_file then some [] else none;
  enforced = false;
  entries = [];
  by_hash = [];
}

unfoldable pub set_entries : StaticKeys → List KeyEntry → StaticKeys
set_entries s es = record s { entries = es; by_hash = index_into [] es }

-- `LoadKeysFile`: an enforcing store on what the file holds.
unfoldable pub load_keys : List KeyEntry → StaticKeys
unfolding set_entries
load_keys es =
    set_entries (record { file = some es; enforced = true; entries = []; by_hash = [] }) es

-- The headers of a request.
pub record Headers : Type 0 where
  pub authorization : String
  pub x_api_key : String
  pub forwarded_for : String

-- The key that a request carries; the empty text for none.
unfoldable pub key_of : Headers → String
key_of h = elim (cut_prefix h.authorization "Bearer ") [
  | none ↦ trim h.x_api_key
  | some key ↦ trim key
]

-- `persist`, which may fail.
abbrev pub persist : Bool → StaticKeys → List KeyEntry → Option StaticKeys
persist written s es = elim s.file [
  | none ↦ some s
  | some old ↦ if written then some (record s { file = some es }) else none
]

abbrev pub has_name : String → List KeyEntry → Bool
has_name name es = any (λ e. str_eq e.name name) es

-- `Enforce`
unfoldable pub enforce : StaticKeys → StaticKeys × Option Error
enforce s =
    if length s.entries == 0 && not s.enforced
    then (s, some no_keys)
    else (record s { enforced = true }, none)

-- `Revoke`; the first argument is whether the file could be written.
unfoldable pub revoke : Bool → StaticKeys → String → StaticKeys × Option Error
revoke written s name =
    let rest = keep (λ e. not (str_eq e.name name)) s.entries in
    if length rest == length s.entries
    then (s, some key_unknown)
    else elim (persist written s rest) [
      | none ↦ (s, some not_written)
      | some t ↦ (record t { entries = rest; by_hash = index_into [] rest }, none)
    ]

-- `Reload`, on what reading the file gives; `none` is an error.
unfoldable pub reload : StaticKeys → Option (List KeyEntry) → StaticKeys × Option Error
unfolding set_entries
reload s read = elim s.file [
  | none ↦ (s, none)
  | some old ↦ elim read [
    | none ↦ (s, some not_read)
    | some es ↦ (record (set_entries s es) { file = some es }, none)
  ]
]

module _ (hash_key : String → String) where
  -- `Lookup`: the owner of the request's key.
  unfoldable pub key_owner : StaticKeys → Headers → Option String
  unfolding key_of
  key_owner s h = if str_eq (key_of h) "" then none else lookup (hash_key (key_of h)) s.by_hash

  -- `StaticKeys.Authenticate`
  unfoldable pub authenticate_key : StaticKeys → Headers → Option String
  authenticate_key s h = elim (key_owner s h) [
    | some name ↦ some name
    | none ↦ if s.enforced then none else some "anonymous"
  ]

  -- `Create`, with the key drawn and the time.
  unfoldable pub create_key :
      Bool → StaticKeys → String → String → ℕ → StaticKeys × (Option String × Option Error)
  create_key written s name key now =
      let e : KeyEntry = record { name = name; hash = hash_key key; created = some now } in
      if not (valid_key_name name)
      then (s, (none, some bad_name))
      else if has_name name s.entries
      then (s, (none, some key_exists))
      else elim (persist written s (s.entries ++ (e ∷ []))) [
        | none ↦ (s, (none, some not_written))
        | some t ↦ (
          record t {
            entries = s.entries ++ (e ∷ []);
            by_hash = insert (hash_key key) name s.by_hash;
          },
          (some key, none),
        )
      ]
