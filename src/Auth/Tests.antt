-- ===== src/Auth/Tests.antt =====
-- A store with two keys, and a machine on the local network.
use phoneborg.Shared.{
  ℕ, ◌≡◌, ◌≢◌, refl, ◌↔◌, ◌⊎◌, true, false, Option, none, some, List, [], ◌∷◌, String, is_some,
  trim, str_eq, ◌==◌, if◌then◌else◌,
}
use Prim.Native.String.{◌++◌}
use phoneborg.Auth.{
  KeyEntry, StaticKeys, Headers, key_of, key_owner, revoke, load_keys, create_key, valid_key_name,
  set_entries, remote_requires_key,
}
use phoneborg.Auth.Keys.{Op, creates, revokes, step, run, revoke-key_owner}
use phoneborg.Auth.Access.{
  AccessControl, local_access, authenticate, authenticate-MayEnter, MayEnter, is_served, is_trusted,
  remote_ip, decide, refused,
}

abbrev hash : String → String
hash key = "h:" ++ key

abbrev stored : List KeyEntry
stored =
    record { name = "ann"; hash = "h:k1"; created = none }
    ∷ record { name = "bob"; hash = "h:k2"; created = some 5 }
    ∷ []

abbrev bearer : String → Headers
bearer key = record { authorization = "Bearer " ++ key; x_api_key = ""; forwarded_for = "" }

abbrev day : List Op
day = creates true "eve" "k3" 9 ∷ revokes true "bob" ∷ []

evening : StaticKeys
unfolding run step load_keys set_entries create_key valid_key_name revoke
evening = run hash (load_keys stored) day

ann_stays : key_owner hash evening (bearer "k1") ≡ some "ann"
unfolding evening key_owner key_of trim
ann_stays = refl

revoked_ok : (revoke true (run hash (load_keys stored) day) "ann").1 ≡ none
unfolding run step load_keys set_entries create_key valid_key_name revoke
revoked_ok = refl

revoke-key_owner_example :
    let s = run hash (load_keys stored) day in
    (key_owner hash (revoke true s "ann").0 (bearer "k1") ≢ some "ann")
    × ((n : String)
        → n ≢ "ann"
        → key_owner hash s (bearer "k1") ≡ some n
        → key_owner hash (revoke true s "ann").0 (bearer "k1") ≡ some n)
revoke-key_owner_example = revoke-key_owner hash stored day true "ann" revoked_ok (bearer "k1")

key_of-bearer : key_of (bearer "k9") ≡ "k9"
unfolding key_of trim
key_of-bearer = refl

created_ok : (create_key hash true (load_keys stored) "joe" "k9" 7).1.1 ≡ none
unfolding create_key load_keys set_entries valid_key_name
created_ok = refl

enforcing : (load_keys stored).enforced ≡ true
unfolding load_keys set_entries
enforcing = refl

-- Addresses are numbers here; 10 and 11 are the local network, 11 is a proxy.
abbrev parse : String → Option ℕ
parse s = if str_eq s "ten" then some 10 else none

abbrev control : AccessControl parse hash
control = record {
  keys = record { file = none; enforced = false; entries = []; by_hash = [] };
  mode = local_access;
  trusted = (λ ip. ip == 10) ∷ (λ ip. ip == 11) ∷ [];
  proxies = (λ ip. ip == 11) ∷ [];
}

abbrev no_headers : Headers
no_headers = record { authorization = ""; x_api_key = ""; forwarded_for = "" }

abbrev forged : Headers
forged = record { authorization = ""; x_api_key = ""; forwarded_for = "ten, 7" }

no_owner : key_owner hash control.keys forged ≡ key_owner hash control.keys no_headers
unfolding key_owner key_of trim
no_owner = refl

stranger : authenticate parse hash control (some 99) forged ≡ refused remote_requires_key
unfolding authenticate decide is_trusted remote_ip key_owner key_of trim
stranger = refl

authenticate-MayEnter_example :
    (is_served (authenticate parse hash control (some 11) forged) ≡ true) ↔ (
      (is_some (key_owner hash control.keys forged) ≡ true)
      ⊎ MayEnter parse hash control (some 11) forged)
authenticate-MayEnter_example = authenticate-MayEnter parse hash control (some 11) forged
