-- ===== src/Rpc/Keys.antt =====
-- internal/rpc/auth.go and convert.go: a login lasts under the temporary keys of its permanent key until
-- it is logged out.
use teled.Prelude.{
  ◌<◌, ◌≡◌, refl, ap, ◌∙◌, Option, some, none, Bool, true, false, Int64, ℕ_discrete, ltb,
  if◌then◌else◌, lt→ltb,
}
use teled.Types.{Time, User, time_unix}
use teled.Memory.State.{Db, KeyId}
use teled.Memory.Rows.{perm_auth_key, session_user_id, bind_session, bind_temp_auth_key, unbind}
use teled.Memory.Rows.Lookup.{
  perm_auth_key-bind_temp_auth_key_self, session_user_id-bind_session_self,
  session_user_id-unbind_self, session_user_id-unbind_ne,
}
use teled.Memory.Users.{user_by_id}
use teled.Rpc.Caller.{effective_key_id, caller_user, bind_caller}
use teled.Rpc.Auth.{auth_bind_temp_auth_key, auth_log_out}

-- The account of the session that a key holds itself.
abbrev pub key_user : KeyId → Db → Option User
key_user key_id d = elim (session_user_id key_id d) [
  | none ↦ none
  | some user_id ↦ user_by_id user_id d
]

caller_user-lem :
    (key_id k : KeyId) (now : Time) (d : Db)
    → effective_key_id key_id now d ≡ k
    → caller_user (some key_id) now d ≡ key_user k d
unfolding caller_user
caller_user-lem key_id k now d e = ap (λ x. key_user x d) e

effective_key_id-lem :
    (key_id perm : KeyId) (now : Time) (d : Db) (early : Bool)
    → perm_auth_key key_id now d ≡ (if early then some perm else none)
    → effective_key_id key_id now d ≡ (if early then perm else key_id)
unfolding effective_key_id
effective_key_id-lem key_id perm now d true e = rw (e, effective_key_id) refl
effective_key_id-lem key_id perm now d false e = rw (e, effective_key_id) refl

session_user_id-bind_session :
    (k perm : KeyId) (user_id : Int64) (d : Db)
    → k ≡ perm
    → session_user_id perm (bind_session k user_id d) ≡ some user_id
session_user_id-bind_session k perm user_id d e =
    rw e (session_user_id-bind_session_self perm user_id d)

key_user-unbind :
    (other_id k : KeyId) (d : Db) (same : Dec (other_id ≡ k))
    → key_user other_id (unbind k d) ≡ elim same [ yes _ ↦ none | no _ ↦ key_user other_id d ]
unfolding unbind user_by_id
key_user-unbind other_id k d (yes e) =
    rw (e, key_user) (rw (session_user_id-unbind_self k d, key_user) refl)
key_user-unbind other_id k d (no ne) = rw (session_user_id-unbind_ne k other_id d ne, key_user) refl

pub bind_caller_user :
    (key_id : KeyId) (user_id : Int64) (now : Time) (d : Db) (u : User)
    → user_by_id user_id d ≡ some u
    → caller_user (some key_id) now (bind_caller (some key_id) user_id now d).1 ≡ some u
unfolding bind_caller bind_session user_by_id perm_auth_key effective_key_id
bind_caller_user key_id user_id now d u e =
    let d' = (bind_caller (some key_id) user_id now d).1 in
    let k = effective_key_id key_id now d in
    let held : session_user_id k d' ≡ some user_id =
      session_user_id-bind_session_self k user_id d in
    caller_user-lem key_id k now d' refl ∙ rw (held, key_user) e

-- A temporary key that is bound to a permanent key acts for it until the binding expires, and for
-- itself from then on.
pub caller_user-auth_bind_temp_auth_key :
    (temp perm : KeyId) (expires_at : Int64) (now : Time) (d : Db)
    → caller_user (some temp) now (auth_bind_temp_auth_key (some temp) perm expires_at d).1
      ≡ key_user (if ltb now (time_unix expires_at) then perm else temp) d
unfolding auth_bind_temp_auth_key bind_temp_auth_key session_user_id user_by_id
caller_user-auth_bind_temp_auth_key temp perm expires_at now d =
    let d' = (auth_bind_temp_auth_key (some temp) perm expires_at d).1 in
    caller_user-lem temp _ now d' (
      effective_key_id-lem temp perm now d' _
        (perm_auth_key-bind_temp_auth_key_self temp perm (time_unix expires_at) now d))

-- A login made on a temporary key that acts for a permanent key is there, until the new binding
-- expires, on every temporary key that is bound to the same permanent key later.
pub bind_caller-rotates :
    (old temp perm : KeyId) (user_id expires_at : Int64) (now later : Time) (d : Db)
    → perm_auth_key old now d ≡ some perm
    → later < time_unix expires_at
    → let d₁ = (bind_caller (some old) user_id now d).1 in
      caller_user (some temp) later (auth_bind_temp_auth_key (some temp) perm expires_at d₁).1
      ≡ user_by_id user_id d
unfolding bind_caller bind_session user_by_id
bind_caller-rotates old temp perm user_id expires_at now later d bound fresh =
    let d₁ = (bind_caller (some old) user_id now d).1 in
    let held : session_user_id perm d₁ ≡ some user_id =
      session_user_id-bind_session _ perm user_id d
        (effective_key_id-lem old perm now d true bound) in
    let acts : key_user perm d₁ ≡ user_by_id user_id d = rw (held, key_user) refl in
    caller_user-auth_bind_temp_auth_key temp perm expires_at later d₁
    ∙ ap (λ b. key_user (if b then perm else temp) d₁) (lt→ltb later (time_unix expires_at) fresh)
    ∙ acts

-- Logging out ends the login of the key and of every key that acts for the same permanent key, and no
-- other.
pub caller_user-auth_log_out :
    (key_id other_id : KeyId) (now later : Time) (d : Db)
    → caller_user (some other_id) later (auth_log_out (some key_id) now d).1
      ≡ elim (ℕ_discrete (effective_key_id other_id later d) (effective_key_id key_id now d)) [
        | yes same ↦ none
        | no apart ↦ caller_user (some other_id) later d
      ]
unfolding caller_user effective_key_id auth_log_out unbind perm_auth_key
caller_user-auth_log_out key_id other_id now later d =
    key_user-unbind (effective_key_id other_id later d) (effective_key_id key_id now d) d
      (ℕ_discrete _ _)
