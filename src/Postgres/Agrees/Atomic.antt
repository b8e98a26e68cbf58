-- ===== src/Postgres/Agrees/Atomic.antt =====
-- internal/db and memory/db.go: SendMessage, EditMessage and DeleteMessages on a server that fails now and then are
-- done as in memory, or not at all.
use teled.Prelude.{
  ℕ, true, ◌+◌, ◌≤◌, ◌≡◌, refl, subst, List, [], ◌∷◌, Option, none, some, Str, Int64, length, arith,
}
use teled.Types.{Time, Result, ok, err, panic, EditResult, SentMessage}
use teled.Memory.State.{Db}
use teled.Memory.Messages.{send_message as mem_send}
use teled.Memory.Revisions.{edit_message as mem_edit, delete_messages as mem_delete}
use teled.Memory.Account.{IsValid}
use teled.Memory.Account.Keeps.{HasSlack}
use teled.Postgres.Tables.{RefRow, Tables}
use teled.Postgres.Sql.{
  Answer, done, fault, Fault, Store, Sql, committed, transaction, reach, write, ask, give, ◌>>=◌,
  ◌>>◌,
}
use teled.Postgres.Messages.{
  has_media, nullable, insert_message, store_peer_copy, send_statements, send_message,
}
use teled.Postgres.Revisions.{
  ref_row, mark_deleted, scan_or, edit_row, peer_local, edit_peer, edit_statements, edit_message,
  delete_each, log_deleted, delete_statements, delete_messages,
}
use teled.Postgres.Outages.{
  calm, bind-Steady, reach-Steady, ask-Steady, Steady, blind-Steady, steady, committed-Steady,
  allocate_pts-Steady, log_update-Steady, store_copy-Steady,
}
use teled.Postgres.Agrees.{Agrees}
use teled.Postgres.Agrees.Matching.{Matches}
use teled.Postgres.Agrees.Sending.{send_message-Matches}
use teled.Postgres.Agrees.Editing.{edit_message-Matches}
use teled.Postgres.Agrees.Delete.{delete_messages-Matches}

-- A call is answered with the value of the call in memory, and leaves tables that agree with what that
-- one leaves; or it faults, and leaves the tables t.
abbrev pub Atomic : {A : Type 0} → Tables → Answer A × Store → Result (A × Db) → Type 0
Atomic t (done a, s) (ok (b, d)) = (a ≡ b) × Agrees s.tables s.sequences d
Atomic t (done a, s) (err e) = ⊥
Atomic t (done a, s) panic = ⊥
Atomic t (fault e, s) r = s.tables ≡ t

-- What the end of the committed statements comes to.
abbrev settled : {A : Type 0} → Tables → Answer A × Store → Answer A × Store
settled t x = elim x.0 [ done a ↦ (done a, x.1) | fault e ↦ (fault e, record x.1 { tables = t }) ]

answered :
    {A : Type 0} (t : Tables) (s₀ : Store) (a : A) (s : Store) (r : Result (A × Db))
    → Matches s₀ (done a, calm s) r
    → Atomic t (done a, s) r
answered t s₀ a s (ok (b, d)) h = (h.0, h.2)
answered t s₀ a s (err e) h = absurd h
answered t s₀ a s panic h = absurd h

settled-Atomic :
    {A : Type 0} (body : Sql A) (s : Store) (r : Result (A × Db)) (x : Answer A × Store)
    → Steady body
    → Matches (calm s) (settled s.tables (committed body (calm s))) r
    → committed body s ≡ x
    → Atomic s.tables (settled s.tables x) r
settled-Atomic body s r (done a, s') h m e =
    answered s.tables (calm s) a s' r
      (subst (λ y. Matches (calm s) (settled s.tables y) r) (committed-Steady body h s a s' e) m)
settled-Atomic body s r (fault f, s') h m e = refl

transaction-Atomic :
    {A : Type 0} (body : Sql A) (s : Store) (r : Result (A × Db))
    → Steady body
    → Matches (calm s) (transaction body (calm s)) r
    → Atomic s.tables (transaction body s) r
unfolding transaction
transaction-Atomic body s r h m = settled-Atomic body s r (committed body s) h m refl

insert_message-Steady :
    (from peer : Int64) (text : Str) (rid : Int64) (media : Option Int64) (now : Time)
    → Steady (insert_message from peer text rid media now)
unfolding insert_message
insert_message-Steady from peer text rid media now = search steady depth 10

store_peer_copy-Steady :
    (sent : SentMessage) (peer : Int64) (now : Time) → Steady (store_peer_copy sent peer now)
unfolding store_peer_copy
store_peer_copy-Steady sent peer now = search (steady, store_copy-Steady)

send_statements-Steady :
    (from peer : Int64) (text : Str) (rid mid : Int64) (now : Time)
    → Steady (send_statements from peer text rid mid now)
unfolding send_statements
send_statements-Steady from peer text rid mid now =
    search (steady, insert_message-Steady, store_copy-Steady, store_peer_copy-Steady)

scan_or-Steady : {A : Type 0} (e : Fault) (f : Tables → Option A) → Steady (scan_or e f)
unfolding scan_or
scan_or-Steady e f = blind-Steady (scan_or e f) (λ s. refl)

edit_row-Steady : (self g : Int64) (text : Str) (now : Time) → Steady (edit_row self g text now)
unfolding edit_row
edit_row-Steady self g text now = search (steady, scan_or-Steady)

peer_local-Steady : (peer g : Int64) → Steady (peer_local peer g)
unfolding peer_local
peer_local-Steady peer g = search steady

edit_peer-Steady :
    (res : EditResult) (self g : Int64) (now : Time) → Steady (edit_peer res self g now)
unfolding edit_peer
edit_peer-Steady res self g now =
    search (steady, peer_local-Steady, allocate_pts-Steady, log_update-Steady)

edit_statements-Steady :
    (self l : Int64) (text : Str) (now : Time) → Steady (edit_statements self l text now)
unfolding edit_statements
edit_statements-Steady self l text now =
    search
      (
        steady, scan_or-Steady, edit_row-Steady, allocate_pts-Steady, log_update-Steady,
        edit_peer-Steady,
      )
      depth 10

-- What the loop does for one local id.
abbrev delete_found : Int64 → Int64 → List Int64 → Option RefRow → Sql (List Int64)
delete_found self i ids o = elim o [
  | none ↦ delete_each self ids
  | some r ↦ do
    reach
    write (mark_deleted r.global_id)
    deleted ← delete_each self ids
    give (i ∷ deleted)
]

delete_each-Steady : (self : Int64) (ids : List Int64) → Steady (delete_each self ids)
unfolding delete_each
delete_each-Steady self [] = search steady
delete_each-Steady self (i ∷ ids) =
    let rest = delete_each-Steady self ids in
    let found-Steady : (o : Option RefRow) → Steady (delete_found self i ids o) = λ o.
      elim o as (λ x. Steady (delete_found self i ids x)) [
        | none ↦ rest
        | some r ↦ search (steady, rest)
      ] in
    bind-Steady reach (λ _. ask (ref_row self i) >>= delete_found self i ids) reach-Steady
      (λ _.
        bind-Steady (ask (ref_row self i)) (delete_found self i ids) (ask-Steady _) found-Steady)

log_deleted-Steady :
    (self : Int64) (ids : List Int64) (now : Time) → Steady (log_deleted self ids now)
unfolding log_deleted
log_deleted-Steady self [] now = search steady
log_deleted-Steady self (i ∷ ids) now = search (steady, allocate_pts-Steady, log_update-Steady)

delete_statements-Steady :
    (self : Int64) (ids : List Int64) (now : Time) → Steady (delete_statements self ids now)
unfolding delete_statements
delete_statements-Steady self ids now = search (steady, delete_each-Steady, log_deleted-Steady)

less_slack : (n : ℕ) (d : Db) → HasSlack (n + 1) d → HasSlack 1 d
less_slack n d slack = record {
  counters = λ u mu e. let c = slack.counters u mu e in (omega (arith, c.0), omega (arith, c.1));
  messages = omega (arith, slack.messages);
}

pub calls-Atomic :
    (self peer local_id rid mid : Int64) (text : Str) (ids : List Int64) (now : Time) (s : Store)
    (d : Db)
    → Agrees s.tables s.sequences d
    → IsValid d
    → HasSlack (length ids + 1) d
    → has_media (nullable mid) s.tables ≡ true
    → length ids ≤ 2_147_483_647
    → Atomic s.tables
        (send_message self peer text rid mid now s)
        (mem_send self peer text rid mid now d)
      × Atomic s.tables (edit_message self local_id text now s) (mem_edit self local_id text now d)
      × Atomic s.tables (delete_messages self ids now s) (mem_delete self ids now d)
unfolding send_message edit_message delete_messages
calls-Atomic self peer l rid mid text ids now s d agrees valid slack media few =
    let one = less_slack (length ids) d slack in
    (
      transaction-Atomic (send_statements self peer text rid mid now) s _
          (send_statements-Steady self peer text rid mid now)
          (send_message-Matches self peer text rid mid now s.tables s.sequences d agrees valid one
            media),
      transaction-Atomic (edit_statements self l text now) s _
          (edit_statements-Steady self l text now)
          (edit_message-Matches self l text now s.tables s.sequences d agrees valid one),
      transaction-Atomic (delete_statements self ids now) s _
          (delete_statements-Steady self ids now)
          (delete_messages-Matches self ids now s.tables s.sequences d agrees valid slack few),
    )
