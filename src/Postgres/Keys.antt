-- ===== src/Postgres/Keys.antt =====
-- internal/db/session.go, phonecode.go and keystore.go: login codes, auth keys, sessions and temporary keys.
-- now is the database's clock. A key of the library is the pair of its id and its bytes; with_id, the id that
-- the library computes of the bytes, is a parameter.
use teled.Prelude.{
  ℕ, ◌+◌, Option, Bool, ◌&&◌, Str, str_eq, Int64, some_in, ltb, ◌==◌, if◌then◌else◌,
}
use teled.Types.{Time}
use teled.Memory.State.{KeyId}
use teled.Memory.Messages.{find}
use teled.Postgres.Tables.{CodeRow, TempKeyRow, to_timestamp}
use teled.Postgres.Sql.{
  missing_parent, Sql, ask, write, check, ◌>>◌, reach, remove, add_row, chosen,
}
use teled.Postgres.Messages.{has_user}
use teled.Postgres.Rows.{upsert}

unfoldable pub bind_session : KeyId → Int64 → Sql (Unit {0})
unfolding reach upsert
bind_session key_id user_id = do
  reach
  check missing_parent (λ t. has_user user_id t && some_in (λ k. k.key_id == key_id) t.auth_keys)
  write (λ t. record t {
    sessions =
        upsert (λ s. s.key_id == key_id) (λ s. record s { user_id = user_id })
          (record { key_id = key_id; user_id = user_id }) t.sessions;
  })

unfoldable pub session_user_id : KeyId → Sql (Option Int64)
unfolding reach find
session_user_id key_id = do
  reach
  ask (λ t. chosen (λ s. s.user_id) (find (λ s. s.key_id == key_id) t.sessions))

unfoldable pub unbind : KeyId → Sql (Unit {0})
unfolding reach remove
unbind key_id = do
  reach
  write (λ t. record t { sessions = remove (λ s. s.key_id == key_id) t.sessions })

unfoldable pub bind_temp_auth_key : KeyId → KeyId → Time → Sql (Unit {0})
unfolding reach upsert
bind_temp_auth_key temp_key_id perm_key_id expires_at = do
  reach
  let row : TempKeyRow = record {
    temp_key_id = temp_key_id;
    perm_key_id = perm_key_id;
    expires_at = to_timestamp expires_at;
  }
  write (λ t. record t {
    temp_auth_keys =
        upsert (λ k. k.temp_key_id == temp_key_id)
          (λ k. record k { perm_key_id = row.perm_key_id; expires_at = row.expires_at }) row
          t.temp_auth_keys;
  })

unfoldable pub perm_auth_key : KeyId → Time → Sql (Option KeyId)
unfolding reach find
perm_auth_key temp_key_id now = do
  reach
  ask (λ t.
      chosen (λ k. k.perm_key_id)
        (find (λ k. (k.temp_key_id == temp_key_id) && ltb now k.expires_at) t.temp_auth_keys))

abbrev pub same_code : Str → Str → CodeRow → Bool
same_code phone code_hash c = str_eq c.phone phone && str_eq c.code_hash code_hash

-- clock is the server's clock, ttl a number of nanoseconds.
unfoldable pub save_phone_code : Str → Str → Str → ℕ → Time → Sql (Unit {0})
unfolding reach upsert
save_phone_code phone code_hash code ttl clock = do
  reach
  let row : CodeRow = record {
    phone = phone;
    code_hash = code_hash;
    code = code;
    expires_at = to_timestamp (clock + ttl);
  }
  write (λ t. record t {
    phone_codes =
        upsert (same_code phone code_hash)
          (λ c. record c { code = row.code; expires_at = row.expires_at }) row t.phone_codes;
  })

unfoldable pub phone_code : Str → Str → Time → Sql (Option Str)
unfolding reach find
phone_code phone code_hash now = do
  reach
  ask (λ t.
      chosen (λ c. c.code)
        (find (λ c. same_code phone code_hash c && ltb now c.expires_at) t.phone_codes))

-- KeyStore.Save, which leaves a stored key as it is.
unfoldable pub save_key : KeyId → Str → Sql (Unit {0})
unfolding reach some_in
save_key id value = do
  reach
  write (λ t. record t {
    auth_keys =
        if some_in (λ k. k.key_id == id) t.auth_keys
        then t.auth_keys
        else add_row (record { key_id = id; auth_key = value }) t.auth_keys;
  })

-- KeyStore.Get.
unfoldable pub get_key : (Str → KeyId) → KeyId → Sql (Option (KeyId × Str))
unfolding reach find
get_key with_id id = do
  reach
  ask (λ t. chosen (λ k. (with_id k.auth_key, k.auth_key)) (find (λ k. k.key_id == id) t.auth_keys))
