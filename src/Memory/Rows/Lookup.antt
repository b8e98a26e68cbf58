-- ===== src/Memory/Rows/Lookup.antt =====
-- memory/db.go, the rows that a login needs: what is stored is found, until it expires or is removed.
use teled.Prelude.{
  ◌+◌, ◌≡◌, ◌≢◌, refl, some, none, Str, Int64, get-put_self, get-put_ne, get-delete_self,
  get-delete_ne, ℕ_discrete, Str-discrete, ltb, if◌then◌else◌,
}
use teled.Types.{Time}
use teled.Memory.State.{Db, KeyId}
use teled.Memory.Rows.{
  phone_code_key, phone_code, save_phone_code, perm_auth_key, bind_temp_auth_key, session_user_id,
  bind_session, unbind,
}

pub phone_code-save_phone_code_self :
    (phone hash code : Str) (ttl sent now : Time) (d : Db)
    → phone_code phone hash now (save_phone_code phone hash code ttl sent d)
      ≡ (if ltb now (sent + ttl) then some code else none)
unfolding phone_code save_phone_code
phone_code-save_phone_code_self phone hash code ttl sent now d =
    rw
      (
        get-put_self Str-discrete (phone_code_key phone hash)
            (record { code = code; expires_at = sent + ttl }) d.phone_codes,
        phone_code,
      )
      refl

pub phone_code-save_phone_code_ne :
    (phone phone' hash hash' code : Str) (ttl sent now : Time) (d : Db)
    → phone_code_key phone' hash' ≢ phone_code_key phone hash
    → phone_code phone' hash' now (save_phone_code phone hash code ttl sent d)
      ≡ phone_code phone' hash' now d
unfolding phone_code save_phone_code
phone_code-save_phone_code_ne phone phone' hash hash' code ttl sent now d ne =
    rw
      (
        get-put_ne Str-discrete (phone_code_key phone hash) (phone_code_key phone' hash')
            (record { code = code; expires_at = sent + ttl }) d.phone_codes ne,
        phone_code,
      )
      refl

pub perm_auth_key-bind_temp_auth_key_self :
    (temp perm : KeyId) (expires_at now : Time) (d : Db)
    → perm_auth_key temp now (bind_temp_auth_key temp perm expires_at d)
      ≡ (if ltb now expires_at then some perm else none)
unfolding perm_auth_key bind_temp_auth_key
perm_auth_key-bind_temp_auth_key_self temp perm expires_at now d =
    rw
      (
        get-put_self ℕ_discrete temp (record { perm = perm; expires_at = expires_at }) d.temp_keys,
        perm_auth_key,
      )
      refl

pub session_user_id-bind_session_self :
    (key_id : KeyId) (user_id : Int64) (d : Db)
    → session_user_id key_id (bind_session key_id user_id d) ≡ some user_id
unfolding session_user_id bind_session
session_user_id-bind_session_self key_id user_id d =
    get-put_self ℕ_discrete key_id user_id d.sessions

pub session_user_id-unbind_self :
    (key_id : KeyId) (d : Db) → session_user_id key_id (unbind key_id d) ≡ none
unfolding session_user_id unbind
session_user_id-unbind_self key_id d = get-delete_self ℕ_discrete key_id d.sessions

pub session_user_id-unbind_ne :
    (key_id other_id : KeyId) (d : Db)
    → other_id ≢ key_id
    → session_user_id other_id (unbind key_id d) ≡ session_user_id other_id d
unfolding session_user_id unbind
session_user_id-unbind_ne key_id other_id d ne =
    get-delete_ne ℕ_discrete key_id other_id d.sessions ne
