-- ===== src/Rpc/Staging.antt =====
-- internal/rpc/staging.go: the parts of uploads that are not complete. A method holds its mutex, so it is
-- one function from state to state. A part is copied, so that the caller's bytes are not shared.
pub mod Parts
use teled.Prelude.{
  ℕ, zero, suc, ◌+◌, ◌-◌, List, [], ◌∷◌, ◌++◌, Option, some, none, Int64, int0, Map, get, put,
  delete, or_else, ltb, if◌then◌else◌, ℕ_discrete,
}

-- stagingKey: a user id and a file id.
abbrev pub StagingKey : Type 0
StagingKey = Int64 × Int64

unfoldable pub StagingKey-discrete : Discrete StagingKey
unfolding ℕ_discrete
StagingKey-discrete = hlevel ℕ_discrete

-- stagedFile.
pub record StagedFile : Type 0 where
  pub parts : Map Int64 (List ℕ)
  pub max : Int64

abbrev pub new_staged_file : StagedFile
new_staged_file = record { parts = []; max = int0 }

unfoldable pub put_part : Int64 → List ℕ → StagedFile → StagedFile
put_part part bytes f = record {
  parts = put ℕ_discrete part bytes f.parts;
  max = if ltb f.max part then part else f.max;
}

-- n rounds of the loop from i. A missing part is the nil slice.
unfoldable pub join_parts : ℕ → Int64 → Map Int64 (List ℕ) → List ℕ
join_parts zero i parts = []
join_parts (suc n) i parts = or_else (get ℕ_discrete i parts) [] ++ join_parts n (i + 1) parts

-- The rounds are those for i from 0 to max, which is never negative.
unfoldable pub assemble : StagedFile → List ℕ
unfolding join_parts
assemble f = join_parts (suc (f.max - int0)) int0 f.parts

-- uploadStaging.
abbrev pub Staging : Type 0
Staging = Map StagingKey StagedFile

abbrev pub new_upload_staging : Staging
new_upload_staging = []

-- The file of the key, as `file` finds or makes it.
unfoldable pub staged_file : StagingKey → Staging → StagedFile
staged_file key u = or_else (get StagingKey-discrete key u) new_staged_file

-- u.file(key).put(part, data), which writes through the pointer that `file` returns.
unfoldable pub stage_part : StagingKey → Int64 → List ℕ → Staging → Staging
unfolding staged_file put_part
stage_part key part bytes u =
    put StagingKey-discrete key (put_part part bytes (staged_file key u)) u

unfoldable pub take_file : StagingKey → Staging → Option StagedFile × Staging
take_file key u = elim (get StagingKey-discrete key u) [
  | none ↦ (none, u)
  | some f ↦ (some f, delete StagingKey-discrete key u)
]
