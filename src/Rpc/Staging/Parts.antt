-- ===== src/Rpc/Staging/Parts.antt =====
-- internal/rpc/staging.go: what an upload is assembled to, whatever the order in which its parts came.
use teled.Prelude.{
  ℕ, ◌+◌, ◌-◌, ◌≤◌, ◌≡◌, refl, sym, ap, ◌∙◌, arith, List, [], ◌∷◌, ◌++◌, Option, some, none, Int64,
  int0, int, length, get, get-put, ℕ_discrete, All, ite, if_neg,
}
use teled.Rpc.Staging.{StagedFile, new_staged_file, put_part, join_parts, assemble}

-- The parts of an upload, the latest first.
abbrev pub Uploads : Type 0
Uploads = List (Int64 × List ℕ)

-- The server's file after them, and the bytes that were sent last for a part.
abbrev pub staged : Uploads → StagedFile
staged [] = new_staged_file
staged ((part, bytes) ∷ earlier) = put_part part bytes (staged earlier)

abbrev pub sent_last : Int64 → Uploads → Option (List ℕ)
sent_last i [] = none
sent_last i ((part, bytes) ∷ earlier) = ite (ℕ_discrete i part) (some bytes) (sent_last i earlier)

-- The chunks stand in the upload as the parts from i on.
abbrev pub Holds : Uploads → Int64 → List (List ℕ) → Type 0
Holds ups i [] = Unit
Holds ups i (chunk ∷ chunks) = (sent_last i ups ≡ some chunk) × Holds ups (i + 1) chunks

abbrev pub concat : List (List ℕ) → List ℕ
concat [] = []
concat (chunk ∷ chunks) = chunk ++ concat chunks

get-staged : (i : Int64) (ups : Uploads) → get ℕ_discrete i (staged ups).parts ≡ sent_last i ups
unfolding put_part get
get-staged i [] = refl
get-staged i ((part, bytes) ∷ earlier) =
    get-put ℕ_discrete part i bytes (staged earlier).parts
    ∙ ap (ite (ℕ_discrete i part) (some bytes)) (get-staged i earlier)

-- max is the largest part number, or 0.
max-le :
    (ups : Uploads) (top : Int64)
    → int0 ≤ top
    → All (λ u. u.0 ≤ top) ups
    → (int0 ≤ (staged ups).max) × ((staged ups).max ≤ top)
unfolding put_part
max-le [] top h all = (omega arith, h)
max-le ((part, bytes) ∷ earlier) top h all = ground (arith, max-le earlier top h all.1)

le-max :
    (i : Int64) (ups : Uploads) {chunk : List ℕ}
    → sent_last i ups ≡ some chunk
    → i ≤ (staged ups).max
unfolding put_part
le-max i [] {chunk} e = cc
le-max i ((part, bytes) ∷ earlier) {chunk} e = elim (ℕ_discrete i part) [
  | yes q ↦ ground arith
  | no q ↦
      let last : sent_last i earlier ≡ some chunk = sym (if_neg (ℕ_discrete i part) q _ _) ∙ e in
      let ih = le-max i earlier last in ground arith
]

last-Holds :
    (ups : Uploads) (chunk : List ℕ) (chunks : List (List ℕ)) (i : Int64)
    → Holds ups i (chunk ∷ chunks)
    → i + length chunks ≤ (staged ups).max
last-Holds ups chunk [] i h = let ih = le-max i ups h.0 in omega arith
last-Holds ups chunk (next ∷ chunks) i h =
    let ih = last-Holds ups next chunks (i + 1) h.1 in omega arith

join-Holds :
    (ups : Uploads) (chunks : List (List ℕ)) (i : Int64)
    → Holds ups i chunks
    → join_parts (length chunks) i (staged ups).parts ≡ concat chunks
unfolding join_parts
join-Holds ups [] i h = refl
join-Holds ups (chunk ∷ chunks) i h =
    rw (get-staged i ups ∙ h.0) (ap (chunk ++◌) (join-Holds ups chunks (i + 1) h.1))

-- Whatever the order in which its parts came, and however often they were sent again: where the parts 0 to n
-- of an upload hold the chunks, and no part above n was sent, the upload is assembled to the chunks in order.
pub assemble-Holds :
    (ups : Uploads) (chunk : List ℕ) (chunks : List (List ℕ))
    → Holds ups int0 (chunk ∷ chunks)
    → All (λ u. u.0 ≤ int (length chunks)) ups
    → assemble (staged ups) ≡ concat (chunk ∷ chunks)
unfolding assemble
assemble-Holds ups chunk chunks held below =
    let top = max-le ups (int (length chunks)) (omega arith) below in
    let last = last-Holds ups chunk chunks int0 held in
    let n : (staged ups).max - int0 ≡ length chunks = omega arith in
    rw n (join-Holds ups (chunk ∷ chunks) int0 held)
