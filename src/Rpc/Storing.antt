-- ===== src/Rpc/Storing.antt =====
-- internal/rpc/media.go: the steps of sending a staged file and of reading a stored one.
use teled.Prelude.{
  ℕ, ◌+◌, ◌<◌, ◌≤◌, ◌≡◌, refl, ap, ◌∙◌, List, some, none, Str, Int64, int0, int, length, get,
  delete, Str-discrete, ==_iff,
}
use teled.Types.{User, File, SentMessage, ok}
use teled.Objects.{Objects, put_object}
use teled.Objects.Ranges.{range, get_range_inside}
use teled.Memory.State.{Db}
use teled.Memory.Messages.{send_message}
use teled.Memory.Updates.{save_file, file_by_id}
use teled.Rpc.Reply.{
  Exec, reply, fail, not_implemented, file_reference_empty, save, look, call, ◌>>◌, bind-replies,
  ◌>>=◌,
}
use teled.Rpc.Caller.{InputPeer, caller_user, resolve_peer_user}
use teled.Rpc.Staging.{StagingKey, StagingKey-discrete, StagedFile, take_file, assemble}
use teled.Rpc.Server.{Context, Server, Updates, on_db, peer_of}
use teled.Rpc.Server.Calls.{bind-caller_of, bind-call, bind-peer_of}
use teled.Rpc.Messages.{deliver, departure}
use teled.Rpc.Media.{
  uploaded, take_staged, store_object, hex, photo_file, require_media, send_file,
  messages_send_media, file_location, upload_get_file, require_store, located, read_range,
}

-- The file that sending stores, and the server that has it.
abbrev pub filed : (List ℕ → List ℕ) → Context → User → List ℕ → Db → File
filed sha256 c caller bytes d =
    (save_file (photo_file caller.id (hex (sha256 bytes)) (sha256 bytes) bytes) c.raw c.secret c.now
      d).0

abbrev pub filed_db : (List ℕ → List ℕ) → Context → User → List ℕ → Db → Db
filed_db sha256 c caller bytes d =
    (save_file (photo_file caller.id (hex (sha256 bytes)) (sha256 bytes) bytes) c.raw c.secret c.now
      d).1

store_object_lem :
    (key : Str) (bytes : List ℕ) (h : Server) (s : Objects)
    → h.store ≡ some s
    → store_object key bytes h
      ≡ (reply tt, record h { store = some (put_object key (some bytes) s).1 })
unfolding store_object put_object
store_object_lem key bytes h s e = rw (e, store_object) refl

pub send_file_lem :
    (sha256 : List ℕ → List ℕ) (c : Context) (caller peer : User) (bytes : List ℕ) (text : Str)
    (rid : Int64) (h : Server) (s : Objects) (sent : SentMessage) (d : Db)
    → h.store ≡ some s
    → let f = filed sha256 c caller bytes h.db in
      send_message caller.id peer.id text rid f.id c.now (filed_db sha256 c caller bytes h.db)
        ≡ ok (sent, d)
      → let h₁ : Server = record h {
        store = some (put_object (hex (sha256 bytes)) (some bytes) s).1;
        db = d;
      } in
        let h' = deliver c caller peer sent text (some f) h₁ in
        send_file sha256 c caller peer bytes text rid h
        ≡ (reply (departure c caller peer sent text rid (some f) h'), h')
unfolding send_file
send_file_lem sha256 c caller peer bytes text rid h s sent d stores sends =
    let key = hex (sha256 bytes) in
    let told : File → SentMessage → Exec Server Updates = λ file m.
      save (deliver c caller peer m text (some file))
      >> look (departure c caller peer m text rid (some file)) in
    let sent_with : File → Exec Server Updates =
      λ file. on_db (call (send_message caller.id peer.id text rid file.id c.now)) >>= told file in
    let filing : Exec Server File = on_db (λ b.
      let (f, b') =
        save_file (photo_file caller.id key (sha256 bytes) bytes) c.raw c.secret c.now b in
      (reply f, b')) in
    let h₁ : Server = record h { store = some (put_object key (some bytes) s).1 } in
    let h₂ : Server = record h₁ { db = filed_db sha256 c caller bytes h.db } in
    let file = filed sha256 c caller bytes h.db in
    bind-replies (store_object key bytes) (λ _. filing >>= sent_with) h h₁ tt
      (store_object_lem key bytes h s stores)
    ∙ bind-replies filing sent_with h₁ h₂ file refl
    ∙ bind-call (send_message caller.id peer.id text rid file.id c.now) (told file) h₂ d sent sends

get-staged_file :
    (caller : User) (file_id : Int64) (h : Server) (f : StagedFile)
    → get StagingKey-discrete (caller.id, file_id) h.staging ≡ some f
    → take_staged caller file_id h
      ≡ (reply f, record h { staging = delete StagingKey-discrete (caller.id, file_id) h.staging })
unfolding take_staged take_file
get-staged_file caller file_id h f e =
    let key : StagingKey = (caller.id, file_id) in
    let left = delete StagingKey-discrete key h.staging in
    let taken : take_file key h.staging ≡ (some f, left) =
      ap (λ o. elim o [ none ↦ (none, h.staging) | some g ↦ (some g, left) ]) e in
    ap
      (λ x. elim x.0 [
        | none ↦ (fail file_reference_empty, record h { staging = x.1 })
        | some g ↦ (reply g, record h { staging = x.1 })
      ])
      taken

require_store-some : (h : Server) (s : Objects) → h.store ≡ some s → require_store h ≡ (reply s, h)
unfolding require_store
require_store-some h s e =
    ap (λ o. elim o [ none ↦ (fail not_implemented, h) | some t ↦ (reply t, h) ]) e

-- What sending media does once the checks are passed.
pub send_media_lem :
    (sha256 : List ℕ → List ℕ) (c : Context) (peer : InputPeer) (file_id : Int64) (text : Str)
    (rid : Int64) (h : Server) (s : Objects) (caller to : User) (f : StagedFile)
    → caller_user c.key c.now h.db ≡ some caller
    → h.store ≡ some s
    → resolve_peer_user caller peer h.db ≡ (reply to, h.db)
    → get StagingKey-discrete (caller.id, file_id) h.staging ≡ some f
    → messages_send_media sha256 c peer (uploaded file_id) text rid h
      ≡ send_file sha256 c caller to
          (assemble f)
          text
          rid
          (record h { staging = delete StagingKey-discrete (caller.id, file_id) h.staging })
unfolding messages_send_media require_store
send_media_lem sha256 c peer file_id text rid h s caller to f me stores them found =
    let take : User → User → Int64 → Exec Server Updates =
      λ a v id. take_staged a id >>= λ g. send_file sha256 c a v (assemble g) text rid in
    let rest : User → User → Exec Server Updates =
      λ a v. require_media (uploaded file_id) >>= take a v in
    bind-caller_of c (λ a. require_store >>= λ _. (peer_of a peer >>= rest a)) h caller me
    ∙ bind-replies require_store (λ _. peer_of caller peer >>= rest caller) h h s
        (require_store-some h s stores)
    ∙ bind-peer_of caller to peer (rest caller) h them
    ∙ bind-replies (require_media (uploaded file_id)) (take caller to) h h file_id refl
    ∙ bind-replies (take_staged caller file_id)
        (λ g. send_file sha256 c caller to (assemble g) text rid) h _ f
        (get-staged_file caller file_id h f found)

located_lem :
    (f : File) (reference : List ℕ) (h : Server)
    → file_by_id f.id h.db ≡ some f
    → located (file_location f.id f.access_hash reference) h ≡ (reply f, h)
unfolding located
located_lem f reference h e = rw (e, located, (==_iff f.access_hash f.access_hash).1 refl) refl

-- A reader who is logged in and names the file with its access hash reads the object under its key.
pub upload_get_file_lem :
    (c : Context) (h : Server) (reader : User) (reference : List ℕ) (s : Objects) (f : File)
    (bytes : List ℕ) (offset n : ℕ)
    → caller_user c.key c.now h.db ≡ some reader
    → h.store ≡ some s
    → file_by_id f.id h.db ≡ some f
    → get Str-discrete f.object_key s ≡ some bytes
    → length bytes < int0
    → offset ≤ length bytes
    → offset + n < int0
    → upload_get_file c (file_location f.id f.access_hash reference) (int offset) (int n) h
      ≡ (reply (range offset n bytes), h)
unfolding upload_get_file require_store read_range
upload_get_file_lem c h reader reference s f bytes offset n me stores known found small inside
      fits =
    let read : Objects → File → Exec Server (List ℕ) = λ o g. read_range o g (int offset) (int n) in
    let place = file_location f.id f.access_hash reference in
    bind-caller_of c (λ _. require_store >>= λ o. (located place >>= read o)) h reader me
    ∙ bind-replies require_store (λ o. located place >>= read o) h h s
        (require_store-some h s stores)
    ∙ bind-replies (located place) (read s) h h f (located_lem f reference h known)
    ∙ rw (get_range_inside f.object_key offset n s bytes found small inside fits, read_range) refl
