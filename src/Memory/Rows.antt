-- ===== src/Memory/Rows.antt =====
-- memory/db.go, the tables that are maps from a key to a row: login codes, sessions, temporary keys,
-- BotFather states, bot commands, contacts and drafts.
pub mod Lookup
use teled.Prelude.{
  ℕ, List, [], ◌∷◌, ◌++◌, Option, none, some, Bool, Str, Int64, sort, Map, get, put, delete, values,
  or_else, ltb, if◌then◌else◌, ℕ_discrete, Str-discrete, format_int, ◌+◌,
}
use teled.Types.{Time, Contact, Draft, BotFatherState, no_step, BotCommand}
use teled.Memory.State.{Db, KeyId}

-- phone + "\x00" + codeHash.
unfoldable pub phone_code_key : Str → Str → Str
phone_code_key phone code_hash = phone ++ 0 ∷ code_hash

-- ttl is in nanoseconds.
unfoldable pub save_phone_code : Str → Str → Str → ℕ → Time → Db → Db
unfolding phone_code_key
save_phone_code phone code_hash code ttl now d = record d {
  phone_codes =
      put Str-discrete (phone_code_key phone code_hash)
        (record { code = code; expires_at = now + ttl }) d.phone_codes;
}

unfoldable pub phone_code : Str → Str → Time → Db → Option Str
unfolding phone_code_key
phone_code phone code_hash now d =
    elim (get Str-discrete (phone_code_key phone code_hash) d.phone_codes) [
      | none ↦ none
      | some pc ↦ if ltb now pc.expires_at then some pc.code else none
    ]

unfoldable pub bind_session : KeyId → Int64 → Db → Db
bind_session key_id user_id d = record d { sessions = put ℕ_discrete key_id user_id d.sessions }

unfoldable pub session_user_id : KeyId → Db → Option Int64
session_user_id key_id d = get ℕ_discrete key_id d.sessions

unfoldable pub unbind : KeyId → Db → Db
unbind key_id d = record d { sessions = delete ℕ_discrete key_id d.sessions }

unfoldable pub bind_temp_auth_key : KeyId → KeyId → Time → Db → Db
bind_temp_auth_key temp_key_id perm_key_id expires_at d = record d {
  temp_keys =
      put ℕ_discrete temp_key_id (record { perm = perm_key_id; expires_at = expires_at })
        d.temp_keys;
}

unfoldable pub perm_auth_key : KeyId → Time → Db → Option KeyId
perm_auth_key temp_key_id now d = elim (get ℕ_discrete temp_key_id d.temp_keys) [
  | none ↦ none
  | some tk ↦ if ltb now tk.expires_at then some tk.perm else none
]

-- d.m[owner], which is empty when nil.
abbrev pub inner : {V : Type 0} → Int64 → Map Int64 (Map Int64 V) → Map Int64 V
inner owner m = or_else (get ℕ_discrete owner m) []

-- delete(d.m[owner], key), which does nothing where the inner map is nil.
abbrev pub delete_inner :
    {V : Type 0} → Int64 → Int64 → Map Int64 (Map Int64 V) → Map Int64 (Map Int64 V)
delete_inner owner key m = elim (get ℕ_discrete owner m) [
  | none ↦ m
  | some i ↦ put ℕ_discrete owner (delete ℕ_discrete key i) m
]

unfoldable pub add_contact : Int64 → Int64 → Str → Str → Db → Db
add_contact owner_id contact_id first_name last_name d = record d {
  contacts =
      put ℕ_discrete owner_id
        (put ℕ_discrete contact_id
          (record { user_id = contact_id; first_name = first_name; last_name = last_name })
          (inner owner_id d.contacts))
        d.contacts;
}

unfoldable pub delete_contacts : Int64 → List Int64 → Db → Db
delete_contacts owner_id [] d = d
delete_contacts owner_id (id ∷ ids) d =
    delete_contacts owner_id ids (record d { contacts = delete_inner owner_id id d.contacts })

unfoldable pub contacts : Int64 → Db → List Contact
contacts owner_id d =
    sort (λ (a b : Contact). ltb a.user_id b.user_id) (values (inner owner_id d.contacts))

-- blank is the test strings.TrimSpace(text) == "".
unfoldable pub save_draft : (Str → Bool) → Int64 → Int64 → Str → Time → Db → Time × Db
save_draft blank user_id peer_id text now d =
    if blank text then (0, record d { drafts = delete_inner user_id peer_id d.drafts }) else (
      now,
      record d {
        drafts =
            put ℕ_discrete user_id
              (put ℕ_discrete peer_id (record { peer_user_id = peer_id; text = text; date = now })
                (inner user_id d.drafts))
              d.drafts;
      },
    )

unfoldable pub drafts : Int64 → Db → List Draft
drafts user_id d = sort (λ (a b : Draft). ltb b.date a.date) (values (inner user_id d.drafts))

unfoldable pub bot_father_state : Int64 → Db → BotFatherState
bot_father_state user_id d =
    or_else (get ℕ_discrete user_id d.bot_states) (record { step = no_step; draft_name = [] })

unfoldable pub set_bot_father_state : Int64 → BotFatherState → Db → Db
set_bot_father_state user_id s d = record d { bot_states = put ℕ_discrete user_id s d.bot_states }

unfoldable pub clear_bot_father_state : Int64 → Db → Db
clear_bot_father_state user_id d = record d { bot_states = delete ℕ_discrete user_id d.bot_states }

-- FormatInt(botUserID, 10) + "\x00" + scope + "\x00" + langCode.
unfoldable pub bot_commands_key : Int64 → Str → Str → Str
unfolding format_int
bot_commands_key bot_user_id scope lang_code =
    format_int bot_user_id ++ 0 ∷ (scope ++ 0 ∷ lang_code)

unfoldable pub set_bot_commands : Int64 → Str → Str → List BotCommand → Db → Db
unfolding bot_commands_key
set_bot_commands bot_user_id scope lang_code commands d = record d {
  bot_commands =
      put Str-discrete (bot_commands_key bot_user_id scope lang_code) commands d.bot_commands;
}

-- A missing row yields nil, an empty list.
unfoldable pub bot_commands : Int64 → Str → Str → Db → List BotCommand
unfolding bot_commands_key
bot_commands bot_user_id scope lang_code d =
    or_else (get Str-discrete (bot_commands_key bot_user_id scope lang_code) d.bot_commands) []

unfoldable pub reset_bot_commands : Int64 → Str → Str → Db → Db
unfolding bot_commands_key
reset_bot_commands bot_user_id scope lang_code d = record d {
  bot_commands = delete Str-discrete (bot_commands_key bot_user_id scope lang_code) d.bot_commands;
}
