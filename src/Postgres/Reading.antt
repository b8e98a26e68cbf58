-- ===== src/Postgres/Reading.antt =====
-- internal/db/dialogs.go: GetDialogs and ReadHistory.
use teled.Prelude.{
  List, [], ◌∷◌, Option, none, some, Bool, false, ◌&&◌, not, Int64, int0, int, index, length, take,
  keep, some_in, sort, map, ltb, leb, ◌==◌, or_else, if◌then◌else◌,
}
use teled.Types.{Time, Dialog, ReadResult, UpdateType, encode_read}
use teled.Memory.Reading.{more_recent}
use teled.Postgres.Tables.{RefRow, Tables}
use teled.Postgres.Sql.{
  bad_limit, Sql, give, ask, write, raise_if, ◌>>=◌, ◌>>◌, reach, transaction, update,
}
use teled.Postgres.Messages.{message_row, allocate_pts, log_update}
use teled.Postgres.History.{other, refs_of}
use teled.Postgres.Revisions.{ref_of_message}

-- MAX over a column, which is NULL over no rows, and COALESCE(MAX(...), 0).
unfoldable pub greatest : List Int64 → Option Int64
greatest [] = none
greatest (x ∷ xs) = elim (greatest xs) [ none ↦ some x | some y ↦ some (if ltb x y then y else x) ]

abbrev pub greatest_or_zero : List Int64 → Int64
greatest_or_zero xs = or_else (greatest xs) int0

-- The inner SELECT of GetDialogs.
pub record Part : Type 0 where
  pub message_id : Int64
  pub out : Bool
  pub unread : Bool
  pub peer : Int64
  pub peer_read : Bool

-- pr.global_id IS NOT NULL AND NOT pr.unread, of the peer's copy when that came in.
unfoldable pub read_by_peer : Int64 → Int64 → Tables → Bool
unfolding ref_of_message
read_by_peer peer global_id t = elim (ref_of_message peer global_id t) [
  | none ↦ false
  | some pr ↦ not pr.out && not pr.unread
]

unfoldable pub parts : Int64 → List RefRow → Tables → List Part
unfolding message_row other read_by_peer
parts self [] t = []
parts self (r ∷ rs) t = elim (message_row r.global_id t) [
  | none ↦ parts self rs t
  | some m ↦
      let rest = parts self rs t in
      let peer = other self m in
      if m.deleted
      then rest
      else (record {
        message_id = r.message_id;
        out = r.out;
        unread = r.unread;
        peer = peer;
        peer_read = read_by_peer peer r.global_id t;
      }
          ∷ rest)
]

-- GROUP BY peer: each peer once.
unfoldable pub peers : List Part → List Int64
unfolding some_in
peers [] = []
peers (p ∷ ps) =
    let rest = peers ps in if some_in (λ q. q == p.peer) rest then rest else p.peer ∷ rest

-- MAX(message_id) FILTER (WHERE ...), or 0.
abbrev pub last_where : (Part → Bool) → List Part → Int64
last_where test ps = greatest_or_zero (map (λ p. p.message_id) (keep test ps))

-- One row of the outer SELECT.
unfoldable pub dialog_of : List Part → Int64 → Dialog
unfolding greatest
dialog_of ps peer =
    let own = keep (λ p. p.peer == peer) ps in
    record {
      peer_user_id = peer;
      top_message_id = greatest_or_zero (map (λ p. p.message_id) own);
      read_inbox_max_id = last_where (λ p. not p.out && not p.unread) own;
      read_outbox_max_id = last_where (λ p. p.out && p.peer_read) own;
      unread_count = int (length (keep (λ p. p.unread && not p.out) own));
      draft = none;
    }

unfoldable pub get_dialogs : Int64 → Int64 → Sql (List Dialog)
unfolding reach parts peers dialog_of
get_dialogs self limit = do
  reach
  raise_if (ltb limit int0) bad_limit
  ask (λ t.
      let ps = parts self (refs_of self t) t in
      take (index limit) (sort more_recent (map (dialog_of ps) (peers ps))))

-- The conversation test of ReadHistory's three statements, which do not look at m.deleted.
unfoldable pub with_peer : Int64 → Int64 → Tables → RefRow → Bool
unfolding message_row other
with_peer self peer t r = elim (message_row r.global_id t) [
  | none ↦ false
  | some m ↦ other self m == peer
]

-- The WHERE of the first two statements.
unfoldable pub readable : Int64 → Int64 → Int64 → Tables → RefRow → Bool
unfolding with_peer
readable self peer max_id t r =
    (r.user_id == self) && not r.out && leb r.message_id max_id && with_peer self peer t r

-- JOIN message_refs pr ON pr.global_id = r.global_id AND pr.user_id = $3 AND pr.out, over the rows r.
unfoldable pub outgoing_copies : Int64 → List RefRow → Tables → List Int64
unfolding ref_of_message
outgoing_copies peer [] t = []
outgoing_copies peer (r ∷ rs) t = elim (ref_of_message peer r.global_id t) [
  | none ↦ outgoing_copies peer rs t
  | some pr ↦ let rest = outgoing_copies peer rs t in if pr.out then pr.message_id ∷ rest else rest
]

abbrev pub mark_read : RefRow → RefRow
mark_read r = record r { unread = false }

-- The WHERE of the third statement.
unfoldable pub counts_unread : Int64 → Int64 → Tables → RefRow → Bool
unfolding with_peer
counts_unread self peer t r =
    (r.user_id == self) && not r.out && r.unread && with_peer self peer t r

-- The read receipt.
unfoldable pub ack_peer : Int64 → Int64 → Time → ReadResult → Sql ReadResult
unfolding allocate_pts log_update
ack_peer self peer now res =
    if not (ltb int0 res.outbox_max_id && not (peer == self)) then give res else do
      pts ← allocate_pts peer 1
      log_update peer pts (int 1) UpdateType.read_outbox none (encode_read self res.outbox_max_id)
          now
      give (record res { outbox_pts = pts })

unfoldable pub read_statements : Int64 → Int64 → Int64 → Time → Sql ReadResult
unfolding reach readable outgoing_copies counts_unread allocate_pts log_update ack_peer greatest
read_statements self peer max_id now = do
  reach
  outbox_max_id ← ask (λ t.
      greatest_or_zero (outgoing_copies peer (keep (readable self peer max_id t) t.message_refs) t))
  reach
  write (λ t. record t {
    message_refs = update (readable self peer max_id t) mark_read t.message_refs;
  })
  reach
  unread_count ← ask (λ t. int (length (keep (counts_unread self peer t) t.message_refs)))
  pts ← allocate_pts self 1
  log_update self pts (int 1) UpdateType.read_inbox none (encode_read peer max_id) now
  ack_peer self peer now (record {
    inbox_pts = pts;
    unread_count = unread_count;
    outbox_pts = int0;
    outbox_max_id = outbox_max_id;
  })

unfoldable pub read_history : Int64 → Int64 → Int64 → Time → Sql ReadResult
unfolding transaction read_statements
read_history self peer max_id now = transaction (read_statements self peer max_id now)
