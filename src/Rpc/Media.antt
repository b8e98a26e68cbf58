-- ===== src/Rpc/Media.antt =====
-- internal/rpc/media.go: uploads, photos in messages, and ranged reads of stored files.
-- sha256.Sum256 is a parameter.
use teled.Prelude.{
  ℕ, ◌+◌, ◌-◌, ◌/◌, ◌%◌, List, [], ◌∷◌, Option, none, some, Bool, true, ◌||◌, Str, Int64, int0, int,
  length, ltb, ◌==◌, if◌then◌else◌, codes,
}
use teled.Types.{User, File}
use teled.Objects.{Objects, stored, refused, slice_panic, put_object, get_range}
use teled.Memory.Messages.{send_message}
use teled.Memory.Updates.{save_file, file_by_id}
use teled.Rpc.Reply.{
  Exec, reply, fail, crash, ◌>>=◌, ◌>>◌, return, throw, look, save, call, internal, not_implemented,
  file_part_invalid, media_invalid, file_reference_empty, location_invalid, file_id_invalid,
}
use teled.Rpc.Caller.{InputPeer}
use teled.Rpc.Staging.{StagedFile, stage_part, take_file, assemble}
use teled.Rpc.Server.{Context, Updates, Server, on_db, caller_of, peer_of}
use teled.Rpc.Messages.{deliver, departure}

-- requireStore.
unfoldable pub require_store : Exec Server Objects
require_store h = elim h.store [ none ↦ (fail not_implemented, h) | some s ↦ (reply s, h) ]

-- 512 KB.
abbrev pub max_part_size : ℕ
max_part_size = 524288

-- uploadSaveFilePart, and uploadSaveBigFilePart, which has the same body.
unfoldable pub upload_save_file_part : Context → Int64 → Int64 → List ℕ → Exec Server Bool
unfolding stage_part
upload_save_file_part c file_id part bytes = do
  caller ← caller_of c
  (if (length bytes == 0) || ltb max_part_size (length bytes)
      then throw file_part_invalid
      else save (λ h. record h { staging = stage_part (caller.id, file_id) part bytes h.staging })
        >> return true)

-- tg.InputMediaClass: an uploaded photo or document with the id of its file, or another kind.
pub data InputMedia : Type 0 where
  uploaded : Int64 → InputMedia
  other_media : InputMedia

-- uploadedFileID.
abbrev pub uploaded_file_id : InputMedia → Option Int64
uploaded_file_id (uploaded id) = some id
uploaded_file_id other_media = none

abbrev pub require_media : InputMedia → Exec Server Int64
require_media media h = elim (uploaded_file_id media) [
  | none ↦ (fail media_invalid, h)
  | some id ↦ (reply id, h)
]

-- h.staging.take.
unfoldable pub take_staged : User → Int64 → Exec Server StagedFile
unfolding take_file
take_staged caller file_id h =
    let (found, staging) = take_file (caller.id, file_id) h.staging in
    let h' = record h { staging = staging } in
    elim found [ none ↦ (fail file_reference_empty, h') | some f ↦ (reply f, h') ]

-- h.store.Put, whose reader cannot fail.
unfoldable pub store_object : Str → List ℕ → Exec Server (Unit {0})
unfolding put_object
store_object key bytes h = elim h.store [
  | none ↦ (crash, h)
  | some s ↦
      let (r, s') = put_object key (some bytes) s in
      elim r [
        | stored _ ↦ (reply tt, record h { store = some s' })
        | refused e ↦ (fail internal, record h { store = some s' })
        | slice_panic ↦ (crash, h)
      ]
]

-- hex.EncodeToString.
abbrev pub hex_digit : ℕ → ℕ
hex_digit n = if ltb n 10 then b'0' + n else b'a' + (n - 10)

unfoldable pub hex : List ℕ → Str
hex [] = []
hex (b ∷ bytes) = hex_digit (b / 16) ∷ hex_digit (b % 16) ∷ hex bytes

-- The arguments of SaveFile.
abbrev pub photo_file : Int64 → Str → List ℕ → List ℕ → File
photo_file owner key sum bytes = record {
  id = int0;
  owner_user_id = owner;
  access_hash = int0;
  object_key = key;
  size = int (length bytes);
  mime = [];
  sha256 = sum;
  file_reference = [];
  kind = codes "photo";
  created_at = 0;
}

module _ (sha256 : List ℕ → List ℕ) where
  -- What follows the checks of messagesSendMedia.
  unfoldable pub send_file : Context → User → User → List ℕ → Str → Int64 → Exec Server Updates
  unfolding store_object deliver hex
  send_file c caller peer bytes text random_id = do
    let key = hex (sha256 bytes)
    store_object key bytes
    file ← on_db (λ d.
        let (f, d') =
          save_file (photo_file caller.id key (sha256 bytes) bytes) c.raw c.secret c.now d in
        (reply f, d'))
    sent ← on_db (call (send_message caller.id peer.id text random_id file.id c.now))
    save (deliver c caller peer sent text (some file))
    look (departure c caller peer sent text random_id (some file))

  unfoldable pub messages_send_media :
      Context → InputPeer → InputMedia → Str → Int64 → Exec Server Updates
  unfolding require_store take_staged send_file assemble
  messages_send_media c peer media text random_id = do
    caller ← caller_of c
    _ ← require_store
    to ← peer_of caller peer
    file_id ← require_media media
    f ← take_staged caller file_id
    send_file c caller to (assemble f) text random_id

-- tg.InputFileLocationClass: a photo or document with its id, access hash and file reference, or another kind.
pub data FileLocation : Type 0 where
  file_location : Int64 → Int64 → List ℕ → FileLocation
  other_location : FileLocation

-- The file of a location, if its access hash is right. The file reference is not looked at.
unfoldable pub located : FileLocation → Exec Server File
located other_location h = (fail location_invalid, h)
located (file_location id access_hash reference) h = elim (file_by_id id h.db) [
  | none ↦ (fail file_id_invalid, h)
  | some f ↦ if f.access_hash == access_hash then (reply f, h) else (fail file_id_invalid, h)
]

unfoldable pub read_range : Objects → File → Int64 → Int64 → Exec Server (List ℕ)
read_range s f offset limit h = elim (get_range f.object_key offset limit s) [
  | stored bytes ↦ (reply bytes, h)
  | refused e ↦ (fail internal, h)
  | slice_panic ↦ (crash, h)
]

unfoldable pub upload_get_file : Context → FileLocation → Int64 → Int64 → Exec Server (List ℕ)
unfolding require_store located read_range
upload_get_file c location offset limit = do
  _ ← caller_of c
  s ← require_store
  f ← located location
  read_range s f offset limit
