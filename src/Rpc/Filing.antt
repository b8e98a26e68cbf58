-- ===== src/Rpc/Filing.antt =====
-- internal/rpc/media.go with memory/objstore.go: a file that is uploaded in parts and sent in a message is read
-- back as it was.
use teled.Prelude.{
  if_cases, subst, ℕ, ◌+◌, ◌<◌, ◌≤◌, ◌≡◌, refl, sym, ap, ◌∙◌, List, [], ◌∷◌, Option, some, none,
  Str, Int64, int0, int, length, All, get, delete, get-put_self, ℕ_discrete, Str-discrete,
}
use teled.Types.{User, File, SentMessage}
use teled.Objects.{Objects, put_object}
use teled.Objects.Ranges.{range}
use teled.Memory.State.{Db, MemUser, user_of}
use teled.Memory.Updates.{save_file, file_by_id}
use teled.Memory.Account.Send.{send_message_runs}
use teled.Rpc.Reply.{Exec, reply, bind-replies, ◌>>=◌}
use teled.Rpc.Caller.{InputPeer, caller_user, resolve_peer_user}
use teled.Rpc.Staging.{StagingKey, StagingKey-discrete}
use teled.Rpc.Staging.Parts.{Uploads, staged, Holds, concat, assemble-Holds}
use teled.Rpc.Server.{Context, Server, Updates, push}
use teled.Rpc.Messages.{deliver, departure, arrival}
use teled.Rpc.Pushing.{push_lem}
use teled.Rpc.Media.{uploaded, hex, send_file, messages_send_media, file_location, upload_get_file}
use teled.Rpc.Uploading.{FitsPart, upload, after_parts, get-after_parts, upload_lem}
use teled.Rpc.Storing.{filed, filed_db, send_file_lem, send_media_lem, upload_get_file_lem}

deliver-same :
    (c : Context) (from peer : User) (sent : SentMessage) (text : Str) (media : Option File)
    (h : Server)
    → let h' = deliver c from peer sent text media h in (h'.db ≡ h.db) × (h'.store ≡ h.store)
unfolding deliver
deliver-same c from peer sent text media h =
    let p = push_lem c peer.id (arrival c from peer sent text media h) h int0 int0 in
    if_cases (λ x. (x.db ≡ h.db) × (x.store ≡ h.store)) sent.self_chat h
      (push c peer.id (arrival c from peer sent text media h) h) (λ e. (refl, refl))
      (λ e. (p.3, p.4))

-- A client that uploads the parts of a file and sends it.
abbrev pub send_upload :
    (List ℕ → List ℕ) → Context → Int64 → Uploads → InputPeer → Str → Int64 → Exec Server Updates
send_upload sha256 c file_id ups peer text rid =
    upload c file_id ups >>= λ _. messages_send_media sha256 c peer (uploaded file_id) text rid

-- The parts are staged, the file is stored and the message is sent.
send_upload_lem :
    (sha256 : List ℕ → List ℕ) (c : Context) (file_id : Int64) (ups : Uploads) (chunk : List ℕ)
    (chunks : List (List ℕ)) (peer : InputPeer) (text : Str) (rid : Int64) (h : Server)
    (s : Objects) (caller to : User) (mf mp : MemUser)
    → caller_user c.key c.now h.db ≡ some caller
    → h.store ≡ some s
    → resolve_peer_user caller peer h.db ≡ (reply to, h.db)
    → user_of h.db caller.id ≡ some mf
    → user_of h.db to.id ≡ some mp
    → get StagingKey-discrete (caller.id, file_id) h.staging ≡ none
    → All FitsPart ups
    → Holds ups int0 (chunk ∷ chunks)
    → All (λ u. u.0 ≤ int (length chunks)) ups
    → let bytes = concat (chunk ∷ chunks) in
      let f = filed sha256 c caller bytes h.db in
      (sent : SentMessage) × (h' : Server) × (send_upload sha256 c file_id ups peer text rid h
        ≡ (reply (departure c caller to sent text rid (some f) h'), h'))
      × (h'.store ≡ some (put_object (hex (sha256 bytes)) (some bytes) s).1)
      × (file_by_id f.id h'.db ≡ some f)
unfolding save_file file_by_id
send_upload_lem sha256 c file_id [] chunk chunks peer text rid h s caller to mf mp me stores them ef
      ep fresh fits held below =
    let gone = held.0 in cc
send_upload_lem sha256 c file_id (u ∷ ups) chunk chunks peer text rid h s caller to mf mp me stores
      them ef ep fresh fits held below =
    let key : StagingKey = (caller.id, file_id) in
    let bytes = concat (chunk ∷ chunks) in
    let f = filed sha256 c caller bytes h.db in
    let whole = assemble-Holds (u ∷ ups) chunk chunks held below in
    let h₁ : Server = record h { staging = after_parts key (u ∷ ups) h.staging } in
    let h₂ : Server = record h₁ { staging = delete StagingKey-discrete key h₁.staging } in
    let (sent, d, e, files) =
      send_message_runs caller.id to.id text rid f.id c.now (filed_db sha256 c caller bytes h.db) mf
        mp ef ep in
    let h₃ : Server = record h₂ {
      store = some (put_object (hex (sha256 bytes)) (some bytes) s).1;
      db = d;
    } in
    let same = deliver-same c caller to sent text (some f) h₃ in
    (
      sent,
      deliver c caller to sent text (some f) h₃,
      bind-replies (upload c file_id (u ∷ ups))
            (λ _. messages_send_media sha256 c peer (uploaded file_id) text rid) h h₁ tt
            (upload_lem c file_id caller (u ∷ ups) h me fits)
          ∙ send_media_lem sha256 c peer file_id text rid h₁ s caller to (staged (u ∷ ups)) me
              stores them (get-after_parts key (u ∷ ups) h.staging fresh)
          ∙ ap (λ b. send_file sha256 c caller to b text rid h₂) whole
          ∙ send_file_lem sha256 c caller to bytes text rid h₂ s sent d stores e,
      same.1,
      ap (λ (x : Db). get ℕ_discrete f.id x.files) same.0
          ∙ ap (get ℕ_discrete f.id) files
          ∙ get-put_self ℕ_discrete f.id f h.db.files,
    )

-- A caller uploads a file in parts, in any order, to a file id that has no staged parts, and sends it in a message
-- to another account or to itself; each part has between one byte and 512 KB, and the whole has less than 2^63
-- bytes. The message is sent, with the file that it names in the answer. Whoever is logged in then, and names
-- the file with its access hash and whatever file reference, reads any range of what was uploaded, or of what
-- is there of it. The parts may differ in size and number more than 4000, and the range need not be aligned.
pub upload_get_file-send_upload :
    (sha256 : List ℕ → List ℕ) (c : Context) (file_id : Int64) (ups : Uploads) (chunk : List ℕ)
    (chunks : List (List ℕ)) (peer : InputPeer) (text : Str) (rid : Int64) (h : Server)
    (s : Objects) (caller to : User) (mf mp : MemUser) (c' : Context) (reader : User)
    (reference : List ℕ) (offset n : ℕ)
    → caller_user c.key c.now h.db ≡ some caller
    → h.store ≡ some s
    → resolve_peer_user caller peer h.db ≡ (reply to, h.db)
    → user_of h.db caller.id ≡ some mf
    → user_of h.db to.id ≡ some mp
    → get StagingKey-discrete (caller.id, file_id) h.staging ≡ none
    → All FitsPart ups
    → Holds ups int0 (chunk ∷ chunks)
    → All (λ u. u.0 ≤ int (length chunks)) ups
    → length (concat (chunk ∷ chunks)) < int0
    → caller_user c'.key c'.now (send_upload sha256 c file_id ups peer text rid h).1.db
      ≡ some reader
    → offset ≤ length (concat (chunk ∷ chunks))
    → offset + n < int0
    → let h' = (send_upload sha256 c file_id ups peer text rid h).1 in
      (f : File) × (sent : SentMessage) × (send_upload sha256 c file_id ups peer text rid h
        ≡ (reply (departure c caller to sent text rid (some f) h'), h'))
      × (upload_get_file c' (file_location f.id f.access_hash reference) (int offset) (int n) h'
          ≡ (reply (range offset n (concat (chunk ∷ chunks))), h'))
unfolding save_file put_object
upload_get_file-send_upload sha256 c file_id ups chunk chunks peer text rid h s caller to mf mp c'
      reader reference offset n me stores them ef ep fresh fits held below small seen inside bound =
    let bytes = concat (chunk ∷ chunks) in
    let (sent, h', e, kept, known) =
      send_upload_lem sha256 c file_id ups chunk chunks peer text rid h s caller to mf mp me stores
        them ef ep fresh fits held below in
    let f = filed sha256 c caller bytes h.db in
    let after : (send_upload sha256 c file_id ups peer text rid h).1 ≡ h' = ap (λ x. x.1) e in
    let read : upload_get_file c' (file_location f.id f.access_hash reference) (int offset) (int n)
          h'
        ≡ (reply (range offset n bytes), h') =
      upload_get_file_lem c' h' reader reference (put_object f.object_key (some bytes) s).1 f bytes
        offset n (ap (λ x. caller_user c'.key c'.now x.db) (sym after) ∙ seen) kept known
        (get-put_self Str-discrete f.object_key bytes s) small inside bound in
    let both =
      subst
        (λ x.
          (send_upload sha256 c file_id ups peer text rid h
            ≡ (reply (departure c caller to sent text rid (some f) x), x))
          × (upload_get_file c' (file_location f.id f.access_hash reference) (int offset) (int n) x
              ≡ (reply (range offset n bytes), x)))
        (sym after) (e, read) in
    (f, sent, both.0, both.1)
