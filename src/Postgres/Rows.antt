-- ===== src/Postgres/Rows.antt =====
-- internal/db/contacts.go, drafts.go, bots.go and botfather.go: the tables that each method reads or writes by
-- one statement. now is the database's clock.
use teled.Prelude.{
  List, [], ◌∷◌, none, some, Bool, ◌&&◌, Str, str_eq, Int64, map, keep, some_in, sort, ltb, ◌==◌,
  if◌then◌else◌,
}
use teled.Types.{Time, Contact, Draft, BotFatherState, no_step, BotCommand}
use teled.Memory.Messages.{find}
use teled.Postgres.Tables.{ContactRow, DraftRow, CommandsRow}
use teled.Postgres.Sql.{
  missing_parent, Sql, give, ask, write, check, ◌>>◌, reach, update, remove, add_row,
}
use teled.Postgres.Messages.{has_user}

module _ {A : Type 0} where
  -- INSERT ... ON CONFLICT DO UPDATE: the row whose key is taken is changed, else the new row is added.
  unfoldable pub upsert : (A → Bool) → (A → A) → A → List A → List A
  unfolding some_in update
  upsert same change row rows =
      if some_in same rows then update same change rows else add_row row rows

abbrev pub same_contact : Int64 → Int64 → ContactRow → Bool
same_contact owner_id contact_id c =
    (c.owner_user_id == owner_id) && (c.contact_user_id == contact_id)

unfoldable pub add_contact : Int64 → Int64 → Str → Str → Sql (Unit {0})
unfolding reach upsert
add_contact owner_id contact_id first_name last_name = do
  reach
  check missing_parent (λ t. has_user owner_id t && has_user contact_id t)
  write (λ t. record t {
    contacts =
        upsert (same_contact owner_id contact_id)
          (λ c. record c { first_name = first_name; last_name = last_name })
          (record {
            owner_user_id = owner_id;
            contact_user_id = contact_id;
            first_name = first_name;
            last_name = last_name;
          })
          t.contacts;
  })

unfoldable pub delete_contacts : Int64 → List Int64 → Sql (Unit {0})
unfolding reach remove some_in
delete_contacts owner_id [] = give tt
delete_contacts owner_id (i ∷ ids) = do
  reach
  write (λ t. record t {
    contacts =
        remove
          (λ c. (c.owner_user_id == owner_id) && some_in (λ id. id == c.contact_user_id) (i ∷ ids))
          t.contacts;
  })

abbrev pub to_contact : ContactRow → Contact
to_contact c = record {
  user_id = c.contact_user_id;
  first_name = c.first_name;
  last_name = c.last_name;
}

unfoldable pub contacts : Int64 → Sql (List Contact)
unfolding reach
contacts owner_id = do
  reach
  ask (λ t.
      sort (λ (a b : Contact). ltb a.user_id b.user_id)
        (map to_contact (keep (λ c. c.owner_user_id == owner_id) t.contacts)))

abbrev pub same_draft : Int64 → Int64 → DraftRow → Bool
same_draft user_id peer_id r = (r.user_id == user_id) && (r.peer_user_id == peer_id)

-- blank is the test strings.TrimSpace(text) == "".
unfoldable pub save_draft : (Str → Bool) → Int64 → Int64 → Str → Time → Sql Time
unfolding reach remove upsert
save_draft blank user_id peer_id text now =
    if blank text
    then (do
      reach
      write (λ t. record t { drafts = remove (same_draft user_id peer_id) t.drafts })
      give 0)
    else (do
      reach
      check missing_parent (has_user user_id)
      write (λ t. record t {
        drafts =
            upsert (same_draft user_id peer_id) (λ r. record r { message = text; date = now })
              (record { user_id = user_id; peer_user_id = peer_id; message = text; date = now })
              t.drafts;
      })
      give now)

abbrev pub to_draft : DraftRow → Draft
to_draft r = record { peer_user_id = r.peer_user_id; text = r.message; date = r.date }

unfoldable pub drafts : Int64 → Sql (List Draft)
unfolding reach
drafts user_id = do
  reach
  ask (λ t.
      sort (λ (a b : Draft). ltb b.date a.date)
        (map to_draft (keep (λ r. r.user_id == user_id) t.drafts)))

abbrev pub same_commands : Int64 → Str → Str → CommandsRow → Bool
same_commands bot_user_id scope lang_code c =
    (c.bot_user_id == bot_user_id) && str_eq c.scope scope && str_eq c.lang_code lang_code

unfoldable pub set_bot_commands : Int64 → Str → Str → List BotCommand → Sql (Unit {0})
unfolding reach upsert
set_bot_commands bot_user_id scope lang_code commands = do
  reach
  check missing_parent (has_user bot_user_id)
  write (λ t. record t {
    bot_commands =
        upsert (same_commands bot_user_id scope lang_code) (λ c. record c { commands = commands })
          (record {
            bot_user_id = bot_user_id;
            scope = scope;
            lang_code = lang_code;
            commands = commands;
          })
          t.bot_commands;
  })

unfoldable pub bot_commands : Int64 → Str → Str → Sql (List BotCommand)
unfolding reach find
bot_commands bot_user_id scope lang_code = do
  reach
  ask (λ t. elim (find (same_commands bot_user_id scope lang_code) t.bot_commands) [
    | none ↦ []
    | some c ↦ c.commands
  ])

unfoldable pub reset_bot_commands : Int64 → Str → Str → Sql (Unit {0})
unfolding reach remove
reset_bot_commands bot_user_id scope lang_code = do
  reach
  write (λ t. record t {
    bot_commands = remove (same_commands bot_user_id scope lang_code) t.bot_commands;
  })

unfoldable pub bot_father_state : Int64 → Sql BotFatherState
unfolding reach find
bot_father_state user_id = do
  reach
  ask (λ t. elim (find (λ r. r.user_id == user_id) t.botfather_sessions) [
    | none ↦ record { step = no_step; draft_name = [] }
    | some r ↦ record { step = r.step; draft_name = r.draft_name }
  ])

unfoldable pub set_bot_father_state : Int64 → BotFatherState → Sql (Unit {0})
unfolding reach upsert
set_bot_father_state user_id state = do
  reach
  check missing_parent (has_user user_id)
  write (λ t. record t {
    botfather_sessions =
        upsert (λ r. r.user_id == user_id)
          (λ r. record r { step = state.step; draft_name = state.draft_name })
          (record { user_id = user_id; step = state.step; draft_name = state.draft_name })
          t.botfather_sessions;
  })

unfoldable pub clear_bot_father_state : Int64 → Sql (Unit {0})
unfolding reach remove
clear_bot_father_state user_id = do
  reach
  write (λ t. record t {
    botfather_sessions = remove (λ r. r.user_id == user_id) t.botfather_sessions;
  })
