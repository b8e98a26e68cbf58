-- ===== src/Memory/Account/Difference.antt =====
-- memory/db.go, GetDifference: a client that has seen the log up to some pts gets the rest of it.
use teled.Prelude.{
  ◌<◌, ◌≤◌, ◌≡◌, List, [], ◌∷◌, ◌++◌, some, false, arith, Int64, int0, keep, sort, All, All-map,
  Ordered, sort-sorted, keep-All, keep-none, keep-append,
}
use teled.Types.{UpdateLogEntry, ok}
use teled.Memory.State.{Db, MemUser, user_of, updates_of}
use teled.Memory.Messages.{cut}
use teled.Memory.Updates.{since, earlier, get_difference}
use teled.Memory.Account.{Chain, Chain-le, IsValid}

-- The two halves of a gapless log are gapless.
pub Chain-split :
    (a b c : Int64) (pre post : List UpdateLogEntry)
    → Chain a pre c
    → Chain a (pre ++ post) b
    → Chain c post b
Chain-split a b c [] post p q = rw (← p) q
Chain-split a b c (e ∷ pre) post p q = Chain-split e.pts b c pre post p.2 q.2

Chain-above : (a b : Int64) (es : List UpdateLogEntry) → Chain a es b → All (λ e. a < e.pts) es
Chain-above a b [] c = tt
Chain-above a b (e ∷ es) c =
    (c.0, All-map (λ f. e.pts < f.pts) _ (λ f h. omega arith) es (Chain-above e.pts b es c.2))

Chain-below : (a b : Int64) (es : List UpdateLogEntry) → Chain a es b → All (λ e. e.pts ≤ b) es
Chain-below a b [] c = tt
Chain-below a b (e ∷ es) c = (Chain-le e.pts b es c.2, Chain-below e.pts b es c.2)

Chain-Ordered :
    (a b : Int64) (es : List UpdateLogEntry)
    → Chain a es b
    → Ordered (λ e f. earlier f e ≡ false) es
Chain-Ordered a b [] c = tt
Chain-Ordered a b (e ∷ es) c = (
  All-map (λ f. e.pts < f.pts) _ (λ f h. ground arith) es (Chain-above e.pts b es c.2),
  Chain-Ordered e.pts b es c.2,
)

-- What a client that stands at since_pts has not seen.
pub unseen :
    (since_pts b : Int64) (pre post : List UpdateLogEntry)
    → Chain int0 pre since_pts
    → Chain since_pts post b
    → sort earlier (keep (since since_pts) (pre ++ post)) ≡ post
unseen s b pre post c c' =
    rw
      (
        keep-append (since s) pre post,
        keep-none (since s) pre (All-map _ _ (λ e h. ground arith) pre (Chain-below int0 s pre c)),
        keep-All (since s) post (All-map _ _ (λ e h. ground arith) post (Chain-above s b post c')),
      )
      (sort-sorted earlier post (Chain-Ordered s b post c'))

-- In a valid database, a client that has applied the log of its account up to since_pts, the first
-- part pre, is answered with the rest of the log in order, cut at the limit, and with the account's
-- pts; and the whole rest leads from since_pts to that pts with no gap.
pub get_difference-resumes :
    (self since_pts limit : Int64) (d : Db) (mu : MemUser) (pre post : List UpdateLogEntry)
    → IsValid d
    → user_of d self ≡ some mu
    → updates_of d self ≡ pre ++ post
    → Chain int0 pre since_pts
    → (get_difference self since_pts limit d ≡ ok (cut limit post, mu.pts))
      × Chain since_pts post mu.pts
unfolding get_difference
get_difference-resumes self s limit d mu pre post valid found split c =
    let whole : Chain int0 (pre ++ post) mu.pts =
      rw split at ((valid.accounts self mu found).gapless) in
    let rest = Chain-split int0 mu.pts s pre post c whole in
    (rw (found, get_difference) (rw (split, unseen s mu.pts pre post c rest)), rest)
