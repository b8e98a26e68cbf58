-- ===== src/Rpc/Uploading.antt =====
-- internal/rpc/media.go and staging.go: what the staging area holds after the parts of an upload.
use teled.Prelude.{
  ℕ, ◌<◌, ◌≤◌, ◌≡◌, refl, ap, ◌∙◌, arith, List, [], ◌∷◌, Option, some, none, true, false, Int64,
  length, All, get, get-put_self, or_else, ltb, ◌==◌, ◌||◌, if◌then◌else◌,
}
use teled.Types.{User}
use teled.Rpc.Reply.{Exec, reply, throw, save, ◌>>◌, file_part_invalid, bind-replies, ◌>>=◌, return}
use teled.Rpc.Caller.{caller_user}
use teled.Rpc.Staging.{
  StagingKey, StagingKey-discrete, StagedFile, Staging, new_staged_file, staged_file, stage_part,
  put_part,
}
use teled.Rpc.Staging.Parts.{Uploads, staged}
use teled.Rpc.Server.{Context, Server}
use teled.Rpc.Server.Calls.{bind-caller_of}
use teled.Rpc.Media.{max_part_size, upload_save_file_part}

-- A client that sends the parts of an upload, the last part first in the list.
abbrev pub upload : Context → Int64 → Uploads → Exec Server (Unit {0})
upload c file_id [] = return tt
upload c file_id ((part, bytes) ∷ earlier) = upload c file_id earlier >>= λ _.
    (upload_save_file_part c file_id part bytes >>= λ _. return tt)

-- The staging area after them, and the entry of the file.
abbrev pub after_parts : StagingKey → Uploads → Staging → Staging
after_parts key [] u = u
after_parts key ((part, bytes) ∷ earlier) u = stage_part key part bytes (after_parts key earlier u)

abbrev pub entry_of : Uploads → Option StagedFile
entry_of [] = none
entry_of (p ∷ earlier) = some (staged (p ∷ earlier))

-- A part that the server takes.
abbrev pub FitsPart : Int64 × List ℕ → Type 0
FitsPart p = (0 < length p.1) × (length p.1 ≤ max_part_size)

entry_lem : (ups : Uploads) → or_else (entry_of ups) new_staged_file ≡ staged ups
entry_lem [] = refl
entry_lem (p ∷ earlier) = refl

pub get-after_parts :
    (key : StagingKey) (ups : Uploads) (u : Staging)
    → get StagingKey-discrete key u ≡ none
    → get StagingKey-discrete key (after_parts key ups u) ≡ entry_of ups
unfolding stage_part staged_file
get-after_parts key [] u e = e
get-after_parts key ((part, bytes) ∷ earlier) u e =
    let ih = get-after_parts key earlier u e in
    get-put_self StagingKey-discrete key _ _
    ∙ ap (λ f. some (put_part part bytes f))
        (ap (λ o. or_else o new_staged_file) ih ∙ entry_lem earlier)

pub upload_lem :
    (c : Context) (file_id : Int64) (caller : User) (ups : Uploads) (h : Server)
    → caller_user c.key c.now h.db ≡ some caller
    → All FitsPart ups
    → upload c file_id ups h
      ≡ (reply tt, record h { staging = after_parts (caller.id, file_id) ups h.staging })
unfolding upload_save_file_part
upload_lem c file_id caller [] h me fits = refl
upload_lem c file_id caller ((part, bytes) ∷ earlier) h me fits =
    let h₁ : Server = record h { staging = after_parts (caller.id, file_id) earlier h.staging } in
    let takes : ((length bytes == 0) || ltb max_part_size (length bytes)) ≡ false = ground arith in
    bind-replies (upload c file_id earlier)
      (λ _. upload_save_file_part c file_id part bytes >>= λ _. return tt) h h₁ tt
      (upload_lem c file_id caller earlier h me fits.1)
    ∙ bind-replies (upload_save_file_part c file_id part bytes) (λ _. return tt) h₁ _ true
        (bind-caller_of c
            (λ a.
              if (length bytes == 0) || ltb max_part_size (length bytes)
              then throw file_part_invalid
              else save
                  (λ s. record s { staging = stage_part (a.id, file_id) part bytes s.staging })
                >> return true)
            h₁ caller me
          ∙ rw takes refl)
