-- ===== src/Memory/Account/Run.antt =====
-- memory/db.go: the database over any sequence of calls, from NewDB on. A call that fails or panics
-- adds no state.
use teled.Prelude.{◌+◌, ◌≡◌, List, [], ◌∷◌, Str, Bool, Option, Int64, ℕ, length, subst, if_cases}
use teled.Types.{
  Time, User, File, SentMessage, EditResult, DeleteResult, ReadResult, BotFatherState, BotCommand,
  ok,
}
use teled.Memory.State.{Db, KeyId, new_db}
use teled.Memory.Messages.{send_message}
use teled.Memory.Revisions.{edit_message, delete_messages}
use teled.Memory.Reading.{read_history}
use teled.Memory.Updates.{save_file}
use teled.Memory.Users.{
  create_user, create_bot, create_owned_bot, set_bot_token, set_profile, set_username,
}
use teled.Memory.Rows.{
  save_phone_code, bind_session, unbind, bind_temp_auth_key, add_contact, delete_contacts,
  save_draft, set_bot_father_state, clear_bot_father_state, set_bot_commands, reset_bot_commands,
}
use teled.Memory.Account.{IsValid}
use teled.Memory.Account.Create.{HasId}
use teled.Memory.Account.Start.{new_db-IsValid}
use teled.Memory.Account.Keeps.{
  Keeps, HasSlack, create_user-Keeps, create_bot-Keeps, create_owned_bot-Keeps,
  set_bot_token-IsValid, set_profile-Keeps, set_username-Keeps, send_message-Keeps,
  edit_message-Keeps, delete_messages-Keeps, read_history-Keeps,
}

-- The writes to the other tables.
pub data RowWrite : Type 0 where
  phone_code : Str → Str → Str → ℕ → Time → RowWrite
  session : KeyId → Int64 → RowWrite
  log_out : KeyId → RowWrite
  temp_key : KeyId → KeyId → Time → RowWrite
  contact : Int64 → Int64 → Str → Str → RowWrite
  drop_contacts : Int64 → List Int64 → RowWrite
  draft : (Str → Bool) → Int64 → Int64 → Str → Time → RowWrite
  bot_state : Int64 → BotFatherState → RowWrite
  end_bot_state : Int64 → RowWrite
  commands : Int64 → Str → Str → List BotCommand → RowWrite
  reset_commands : Int64 → Str → Str → RowWrite
  file : File → Int64 → Str → Time → RowWrite

unfoldable pub write : RowWrite → Db → Db
write (phone_code p h c ttl now) d = save_phone_code p h c ttl now d
write (session k u) d = bind_session k u d
write (log_out k) d = unbind k d
write (temp_key t p e) d = bind_temp_auth_key t p e d
write (contact o c f l) d = add_contact o c f l d
write (drop_contacts o ids) d = delete_contacts o ids d
write (draft blank u p t now) d = (save_draft blank u p t now d).1
write (bot_state u s) d = set_bot_father_state u s d
write (end_bot_state u) d = clear_bot_father_state u d
write (commands b s l cs) d = set_bot_commands b s l cs d
write (reset_commands b s l) d = reset_bot_commands b s l d
write (file f raw ref now) d = (save_file f raw ref now d).1

-- One successful call, in a state whose counters it does not wrap, where a new account does not get
-- BotFather's id.
pub data Step (d d' : Db) : Type 0 where
  creates_user :
      (phone first last : Str) (raw : Int64) (now : Time) (u : User)
      → HasId d
      → create_user phone first last raw now d ≡ ok (u, d')
      → Step d d'
  creates_bot :
      (token name first : Str) (raw : Int64) (now : Time) (u : User)
      → HasId d
      → create_bot token name first raw now d ≡ ok (u, d')
      → Step d d'
  creates_owned_bot :
      (name first : Str) (owner : Int64) (secret : Str) (raw : Int64) (now : Time) (u : User)
      → HasId d
      → create_owned_bot name first owner secret raw now d ≡ ok (u, d')
      → Step d d'
  sets_token : (id : Int64) (token : Str) → set_bot_token id token d ≡ d' → Step d d'
  sets_profile :
      (id : Int64) (first last about : Option Str) (u : User)
      → set_profile id first last about d ≡ ok (u, d')
      → Step d d'
  sets_username :
      (id : Int64) (name : Str) (u : User) → set_username id name d ≡ ok (u, d') → Step d d'
  sends :
      (from peer : Int64) (text : Str) (rid fid : Int64) (now : Time) (sent : SentMessage)
      → HasSlack 1 d
      → send_message from peer text rid fid now d ≡ ok (sent, d')
      → Step d d'
  edits :
      (self local_id : Int64) (text : Str) (now : Time) (res : EditResult)
      → HasSlack 1 d
      → edit_message self local_id text now d ≡ ok (res, d')
      → Step d d'
  deletes :
      (self : Int64) (ids : List Int64) (now : Time) (res : DeleteResult)
      → HasSlack (length ids + 1) d
      → delete_messages self ids now d ≡ ok (res, d')
      → Step d d'
  reads :
      (self peer max_id : Int64) (now : Time) (res : ReadResult)
      → HasSlack 1 d
      → read_history self peer max_id now d ≡ ok (res, d')
      → Step d d'
  writes : (w : RowWrite) → write w d ≡ d' → Step d d'

delete_contacts-IsValid :
    (o : Int64) (ids : List Int64) (d : Db) → IsValid d → IsValid (delete_contacts o ids d)
unfolding delete_contacts
delete_contacts-IsValid o [] d v = v
delete_contacts-IsValid o (i ∷ ids) d v =
    delete_contacts-IsValid o ids _
      (record { accounts = v.accounts; strangers = v.strangers; numbered = v.numbered })

save_draft-IsValid :
    (blank : Str → Bool) (u p : Int64) (t : Str) (now : Time) (d : Db)
    → IsValid d
    → IsValid (save_draft blank u p t now d).1
unfolding save_draft
save_draft-IsValid blank u p t now d v =
    if_cases (λ (r : Time × Db). IsValid r.1) (blank t) _ _
      (λ e. record { accounts = v.accounts; strangers = v.strangers; numbered = v.numbered })
      (λ e. record { accounts = v.accounts; strangers = v.strangers; numbered = v.numbered })

write-IsValid : (w : RowWrite) (d : Db) → IsValid d → IsValid (write w d)
unfolding write save_phone_code bind_session unbind bind_temp_auth_key add_contact
    set_bot_father_state clear_bot_father_state set_bot_commands reset_bot_commands save_file
write-IsValid (drop_contacts o ids) d v = delete_contacts-IsValid o ids d v
write-IsValid (draft blank u p t now) d v = save_draft-IsValid blank u p t now d v
write-IsValid _ d v = record {
  accounts = v.accounts;
  strangers = v.strangers;
  numbered = v.numbered;
}

Step-IsValid : {d d' : Db} → Step d d' → IsValid d → IsValid d'
Step-IsValid {d} (creates_user p f l raw now u id e) v =
    subst Keeps e (create_user-Keeps p f l raw now d v id)
Step-IsValid {d} (creates_bot t n f raw now u id e) v =
    subst Keeps e (create_bot-Keeps t n f raw now d v id)
Step-IsValid {d} (creates_owned_bot n f o s raw now u id e) v =
    subst Keeps e (create_owned_bot-Keeps n f o s raw now d v id)
Step-IsValid {d} (sets_token id t e) v = subst IsValid e (set_bot_token-IsValid id t d v)
Step-IsValid {d} (sets_profile id f l a u e) v = subst Keeps e (set_profile-Keeps id f l a d v)
Step-IsValid {d} (sets_username id n u e) v = subst Keeps e (set_username-Keeps id n d v)
Step-IsValid {d} (sends f p t r i now s slack e) v =
    subst Keeps e (send_message-Keeps f p t r i now d v slack)
Step-IsValid {d} (edits self l t now r slack e) v =
    subst Keeps e (edit_message-Keeps self l t now d v slack)
Step-IsValid {d} (deletes self ids now r slack e) v =
    subst Keeps e (delete_messages-Keeps self ids now d v slack)
Step-IsValid {d} (reads self p m now r slack e) v =
    subst Keeps e (read_history-Keeps self p m now d v slack)
Step-IsValid {d} (writes w e) v = subst IsValid e (write-IsValid w d v)

pub data Reach (s : Db) : Db → Type 0 where
  here : Reach s s
  next : {d d' : Db} → Reach s d → Step d d' → Reach s d'

-- After any sequence of successful calls from the empty database on, in which no counter wraps and no
-- new account gets BotFather's id, the database is valid: every account's update log is gapless from 0 to the account's pts, its refs stand
-- under their own allocated ids, each for a stored message of that account, and what belongs to no
-- account is empty.
pub Reach-IsValid : (now : Time) {d : Db} → Reach (new_db now) d → IsValid d
Reach-IsValid now here = new_db-IsValid now
Reach-IsValid now (next r step) = Step-IsValid step (Reach-IsValid now r)
