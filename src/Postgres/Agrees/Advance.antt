-- ===== src/Postgres/Agrees/Advance.antt =====
-- internal/db/message.go and memory/db.go: allocatePts followed by logUpdate keeps the two storages in
-- agreement.
use teled.Prelude.{
  ℕ, ◌+◌, ◌<◌, ◌≤◌, ◌≡◌, refl, sym, ap, ◌∙◌, [], ◌∷◌, ◌++◌, none, some, false, arith, Int64, int,
  add_len, word, map, keep, some_in, or_else, get-put_self, get-put_ne, ℕ_discrete, ◌==◌, ==_iff,
  ==_false,
}
use teled.Types.{UpdateLogEntry}
use teled.Memory.State.{Db, user_of, updates_of}
use teled.Memory.Account.Advance.{advanced}
use teled.Postgres.Tables.{UserRow, LogRow, Tables, Sequences}
use teled.Postgres.Sql.{done, fault, no_rows, add_row, chosen}
use teled.Postgres.Messages.{
  user_row, message_row, file_row, advance, update_user, allocate_pts, logged_at, log_update,
}
use teled.Postgres.Updates.{log_of, log_entry}
use teled.Postgres.Running.{online, user_row-update_user}
use teled.Postgres.Selecting.{find-update_other, map-append}
use teled.Postgres.Agrees.{Agrees, mem_user}
use teled.Postgres.Agrees.Copy.{keep-add_own, keep-add_other}

-- The row of an entry of the log of an account.
abbrev pub entry_row : Int64 → UpdateLogEntry → LogRow
entry_row user_id e = record {
  user_id = user_id;
  pts = e.pts;
  pts_count = e.pts_count;
  type = e.type;
  global_id = e.global_id;
  extra = e.extra;
  date = e.date;
}

-- The tables after account u advanced by n and logged the entry.
abbrev pub advanced_rows : Int64 → ℕ → UpdateLogEntry → Tables → Tables
advanced_rows u n e t = record (update_user u (advance n) t) {
  updates_log = add_row (entry_row u e) t.updates_log;
}

pub allocate_pts_missing :
    (u : Int64) (n : ℕ) (t : Tables) (q : Sequences)
    → user_row u t ≡ none
    → allocate_pts u n (online t q) ≡ (fault no_rows, online t q)
unfolding allocate_pts user_row
allocate_pts_missing u n t q gone = rw gone refl

module _ (u : Int64) (row : UserRow) (t : Tables) (q : Sequences) (found : user_row u t ≡ some row)
    (n : ℕ) (room : row.pts + n < word) where
  pub allocate_pts_runs :
      allocate_pts u n (online t q)
      ≡ (done (add_len row.pts n), online (update_user u (advance n) t) q)
  unfolding allocate_pts user_row
  allocate_pts_runs = ground (arith, found)

  pub log_update_runs :
      (e : UpdateLogEntry)
      → some_in (logged_at u e.pts) t.updates_log ≡ false
      → e.pts_count ≤ int 2_147_483_647
      → log_update u e.pts e.pts_count e.type e.global_id e.extra e.date
          (online (update_user u (advance n) t) q)
        ≡ (done tt, online (advanced_rows u n e t) q)
  unfolding log_update user_row
  log_update_runs e fresh small =
      let there = user_row-update_user u (advance n) row t (λ v. refl) found in
      ground (arith, fresh, there)

  module _ (d : Db) (agrees : Agrees t q d) (e : UpdateLogEntry) where
    user_of-both :
        (v : Int64)
        → chosen mem_user (user_row v (advanced_rows u n e t))
          ≡ user_of (advanced u (mem_user row) (add_len row.pts n) e d) v
    unfolding user_row
    user_of-both v =
        let next = record (mem_user row) { pts = add_len row.pts n } in
        elim (ℕ_discrete v u) [
          | yes s ↦ rw s (
              ap (chosen mem_user) (user_row-update_user u (advance n) row t (λ w. refl) found)
              ∙ sym (get-put_self ℕ_discrete u next d.users))
          | no s ↦
              ap (chosen mem_user) (
                find-update_other (λ w. w.id == v) (λ w. w.id == u) (advance n) t.users
                  (λ w own. (ground arith, ground arith)))
              ∙ agrees.users v
              ∙ sym (get-put_ne ℕ_discrete u v next d.users s)
        ]

    log_of-both :
        (v : Int64)
        → log_of v (advanced_rows u n e t)
          ≡ updates_of (advanced u (mem_user row) (add_len row.pts n) e d) v
    log_of-both v =
        let r = entry_row u e in
        let own = λ (w : Int64) (r : LogRow). r.user_id == w in
        let added = updates_of d u ++ e ∷ [] in
        elim (ℕ_discrete v u) [
          | yes s ↦ rw s (
              ap (map log_entry) (keep-add_own (own u) r t.updates_log ((==_iff u u).1 refl))
              ∙ map-append log_entry (keep (own u) t.updates_log) (r ∷ [])
              ∙ ap (λ l. l ++ e ∷ []) (agrees.log u)
              ∙ sym (ap (λ o. or_else o []) (get-put_self ℕ_discrete u added d.updates)))
          | no s ↦
              ap (map log_entry)
                (keep-add_other (own v) r t.updates_log (==_false u v (λ x. s (sym x))))
              ∙ agrees.log v
              ∙ sym (ap (λ o. or_else o []) (get-put_ne ℕ_discrete u v added d.updates s))
        ]

    -- The rows and the maps that the advance leaves agree again.
    pub advanced-Agrees :
        Agrees (advanced_rows u n e t) q (advanced u (mem_user row) (add_len row.pts n) e d)
    unfolding message_row file_row
    advanced-Agrees = record {
      users = user_of-both;
      messages = agrees.messages;
      refs = agrees.refs;
      log = log_of-both;
      files = agrees.files;
      sequence = agrees.sequence;
      free = agrees.free;
      no_file = agrees.no_file;
      distinct = agrees.distinct;
    }
