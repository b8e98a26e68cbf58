-- ===== src/Postgres/Agrees/Run.antt =====
-- internal/db and memory/db.go: a client that sends, edits, deletes and reads gets the same replies of
-- either storage, over any sequence of calls.
use teled.Prelude.{◌≡◌, refl, sym, ap, ◌∙◌, subst, List, ◌∷◌, Option, some, int0, arith}
use teled.Types.{Result, ok, err, panic}
use teled.Memory.State.{Db}
use teled.Memory.Messages.{get_history as mem_history}
use teled.Memory.Updates.{get_difference as mem_difference}
use teled.Memory.Account.{IsValid}
use teled.Memory.Account.Keeps.{
  Keeps, send_message-Keeps, edit_message-Keeps, delete_messages-Keeps,
}
use teled.Postgres.Tables.{Tables, Sequences}
use teled.Postgres.Sql.{Answer, done, fault, Store}
use teled.Postgres.Running.{online}
use teled.Postgres.Agrees.{Agrees}
use teled.Postgres.Agrees.Matching.{Matches}
use teled.Postgres.Agrees.Revise.{row_of_user}
use teled.Postgres.Agrees.Sending.{send_message-Matches}
use teled.Postgres.Agrees.Editing.{edit_message-Matches}
use teled.Postgres.Agrees.Delete.{delete_messages-Matches}
use teled.Postgres.Agrees.Reads.{get_history-Agrees, get_difference-Agrees}
use teled.Postgres.Agrees.Requests.{
  Request, send, edit, delete, history, difference, Reply, sent, edited, deleted, messages, entries,
  refused, mem_reply, read_reply, mem_step, pg_reply, pg_step, Admits, Runs, stop, call, pg_run,
}

-- The reply and the agreement after one call.
abbrev Ends : Reply → Db → Reply × Store → Type 0
Ends p d' x = (t' : Tables) × (q' : Sequences) × (x ≡ (p, online t' q')) × Agrees t' q' d'

same_pair :
    {A B : Type 0} (a a' : A) (b b' : B)
    → ◌≡◌ {A = Option (A × B)} (some (a, b)) (some (a', b'))
    → (a ≡ a') × (b ≡ b')
same_pair a a' b b' e = (ground arith, ground arith)

matched :
    {A : Type 0} (f : A → Reply) (t : Tables) (q : Sequences) (d d₁ : Db) (p : Reply)
    (x : Answer A × Store) (r : Result (A × Db))
    → Agrees t q d
    → Matches (online t q) x r
    → mem_reply f d r ≡ some (p, d₁)
    → Ends p d₁ (pg_reply f x)
matched f t q d d₁ p (done a, s) (ok (b, d')) agrees h e =
    let (ep, ed) = same_pair (f b) p d' d₁ e in
    (
      s.tables,
      s.sequences,
      ap (λ (y : Reply). (y, s)) (ap f h.0 ∙ ep) ∙ ap (λ o. (p, record s { outages = o })) h.1,
      subst (Agrees s.tables s.sequences) ed h.2,
    )
matched f t q d d₁ p (done a, s) (err g) agrees h e = absurd h
matched f t q d d₁ p (done a, s) panic agrees h e = absurd h
matched f t q d d₁ p (fault g, s) (ok r) agrees h e = absurd h
matched f t q d d₁ p (fault g, s) (err g') agrees h e =
    let (ep, ed) = same_pair (refused g') p d d₁ e in
    (
      t,
      q,
      ap (λ y. pg_reply f (fault y, s)) h.0 ∙ ap (λ (y : Reply). (y, s)) ep ∙ ap (λ y. (p, y)) h.1,
      subst (Agrees t q) ed agrees,
    )
matched f t q d d₁ p (fault g, s) panic agrees h e = cc

pub step-Agrees :
    (r : Request) (t : Tables) (q : Sequences) (d d₁ : Db) (p : Reply)
    → Agrees t q d
    → IsValid d
    → Admits r d
    → mem_step r d ≡ some (p, d₁)
    → Ends p d₁ (pg_step r (online t q))
unfolding mem_step pg_step
step-Agrees (send from peer text rid now) t q d d₁ p agrees valid slack e =
    matched sent t q d d₁ p _ _ agrees
      (send_message-Matches from peer text rid int0 now t q d agrees valid slack refl) e
step-Agrees (edit self l text now) t q d d₁ p agrees valid slack e =
    matched edited t q d d₁ p _ _ agrees
      (edit_message-Matches self l text now t q d agrees valid slack) e
step-Agrees (delete self ids now) t q d d₁ p agrees valid slack e =
    matched deleted t q d d₁ p _ _ agrees
      (delete_messages-Matches self ids now t q d agrees valid slack.0 slack.1) e
step-Agrees (history self peer offset limit) t q d d₁ p agrees valid pos e =
    let (ep, ed) = same_pair (messages (mem_history self peer offset limit d)) p d d₁ e in
    (
      t,
      q,
      ap (pg_reply messages) (get_history-Agrees t q d agrees self peer offset limit pos)
          ∙ ap (λ (y : Reply). (y, online t q)) ep,
      subst (Agrees t q) ed agrees,
    )
step-Agrees (difference self since limit now) t q d d₁ p agrees valid (pos, mu, found) e =
    let (row, account, same) = row_of_user t q d agrees self mu found in
    let (es, runs, runs') =
      get_difference-Agrees t q d agrees self since limit now row pos account in
    let (ep, ed) =
      same_pair (entries (es, row.pts)) p d d₁ (sym (ap (read_reply entries d) runs') ∙ e) in
    (
      t,
      q,
      ap (pg_reply entries) runs ∙ ap (λ (y : Reply). (y, online t q)) ep,
      subst (Agrees t q) ed agrees,
    )

kept :
    {A : Type 0} (f : A → Reply) (d d₁ : Db) (p : Reply) (r : Result (A × Db))
    → IsValid d
    → Keeps r
    → mem_reply f d r ≡ some (p, d₁)
    → IsValid d₁
kept f d d₁ p (ok (a, d')) valid h e = subst IsValid (same_pair (f a) p d' d₁ e).1 h
kept f d d₁ p (err g) valid h e = subst IsValid (same_pair (refused g) p d d₁ e).1 valid
kept f d d₁ p panic valid h e = cc

kept_read :
    {A : Type 0} (f : A → Reply) (d d₁ : Db) (p : Reply) (r : Result A)
    → IsValid d
    → read_reply f d r ≡ some (p, d₁)
    → IsValid d₁
kept_read f d d₁ p (ok a) valid e = subst IsValid (same_pair (f a) p d d₁ e).1 valid
kept_read f d d₁ p (err g) valid e = subst IsValid (same_pair (refused g) p d d₁ e).1 valid
kept_read f d d₁ p panic valid e = cc

step-IsValid :
    (r : Request) (d d₁ : Db) (p : Reply)
    → IsValid d
    → Admits r d
    → mem_step r d ≡ some (p, d₁)
    → IsValid d₁
unfolding mem_step
step-IsValid (send from peer text rid now) d d₁ p valid slack e =
    kept sent d d₁ p _ valid (send_message-Keeps from peer text rid int0 now d valid slack) e
step-IsValid (edit self l text now) d d₁ p valid slack e =
    kept edited d d₁ p _ valid (edit_message-Keeps self l text now d valid slack) e
step-IsValid (delete self ids now) d d₁ p valid slack e =
    kept deleted d d₁ p _ valid (delete_messages-Keeps self ids now d valid slack.0) e
step-IsValid (history self peer offset limit) d d₁ p valid pos e =
    subst IsValid (same_pair (messages (mem_history self peer offset limit d)) p d d₁ e).1 valid
step-IsValid (difference self since limit now) d d₁ p valid h e =
    kept_read entries d d₁ p (mem_difference self since limit d) valid e

-- PostgreSQL gives a client the replies of the in-memory database. From tables that agree with a valid
-- in-memory database, while no statement fails, take any sequence of calls that send (without a file), edit
-- and delete messages, and read the history and the difference, in which the in-memory database does not
-- panic and each call is admitted: no counter wraps, a deletion names at most 2^31 - 1 ids, a limit is
-- positive, and the account of a difference exists. Then the replies are the same, errors included, and
-- the storages agree again.
pub run-Agrees :
    (rs : List Request) (ps : List Reply) (t : Tables) (q : Sequences) (d d' : Db)
    → Agrees t q d
    → IsValid d
    → Runs d rs ps d'
    → (t' : Tables) × (q' : Sequences) × (pg_run rs (online t q) ≡ (ps, online t' q'))
      × Agrees t' q' d'
unfolding pg_run
run-Agrees rs ps t q d d' agrees valid stop = (t, q, refl, agrees)
run-Agrees rs ps t q d d' agrees valid
      (call {d₁ = d₁} {r = r} {p = p} {rs = rs'} {ps = ps'} admits e rest) =
    let (t₁, q₁, runs, agrees₁) = step-Agrees r t q d d₁ p agrees valid admits e in
    let (t', q', runs', agrees') =
      run-Agrees rs' ps' t₁ q₁ d₁ d' agrees₁ (step-IsValid r d d₁ p valid admits e) rest in
    (
      t',
      q',
      ap (λ x. (x.0 ∷ (pg_run rs' x.1).0, (pg_run rs' x.1).1)) runs
          ∙ ap (λ y. (p ∷ y.0, y.1)) runs',
      agrees',
    )
