-- ===== src/Postgres/History.antt =====
-- internal/db/message.go: GetHistory and SearchMessages. ILIKE and strings.TrimSpace are parameters of the
-- search.
use teled.Prelude.{
  List, [], ◌∷◌, ◌++◌, none, some, Bool, true, ◌&&◌, ◌||◌, not, Str, str_eq, Int64, int0, int,
  index, take, keep, sort, ltb, leb, ◌==◌, or_else, if◌then◌else◌,
}
use teled.Types.{Message}
use teled.Memory.Messages.{newer}
use teled.Postgres.Tables.{MessageRow, RefRow, Tables}
use teled.Postgres.Sql.{bad_limit, Sql, give, ask, raise_if, ◌>>◌, reach}
use teled.Postgres.Messages.{message_row, file_row}

-- CASE WHEN m.from_user_id = $1 THEN m.peer_user_id ELSE m.from_user_id END.
unfoldable pub other : Int64 → MessageRow → Int64
other self m = if m.from_user_id == self then m.peer_user_id else m.from_user_id

-- scanMessage of one joined row, with the file of its LEFT JOIN.
unfoldable pub scan_message : Int64 → RefRow → MessageRow → Tables → Message
unfolding other file_row
scan_message self r m t = record {
  global_id = m.global_id;
  local_id = r.message_id;
  from_user_id = m.from_user_id;
  peer_user_id = other self m;
  out = r.out;
  text = m.text;
  date = m.date;
  edit_date = or_else m.edit_date 0;
  random_id = m.random_id;
  media = elim m.media_file_id [ none ↦ none | some id ↦ file_row id t ];
}

-- FROM message_refs r JOIN messages m, behind a WHERE: a ref has at most one message.
unfoldable pub joined : Int64 → (RefRow → MessageRow → Bool) → List RefRow → Tables → List Message
unfolding scan_message message_row
joined self wanted [] t = []
joined self wanted (r ∷ rs) t = elim (message_row r.global_id t) [
  | none ↦ joined self wanted rs t
  | some m ↦
      let rest = joined self wanted rs t in
      if wanted r m then scan_message self r m t ∷ rest else rest
]

-- r.user_id = $1.
abbrev pub refs_of : Int64 → Tables → List RefRow
refs_of user_id t = keep (λ r. r.user_id == user_id) t.message_refs

-- The WHERE of historySelect behind r.user_id = $1.
abbrev pub in_conversation : Int64 → Int64 → MessageRow → Bool
in_conversation self peer m = not m.deleted && (other self m == peer)

-- ORDER BY r.message_id DESC LIMIT.
abbrev pub newest : Int64 → List Message → List Message
newest limit msgs = take (index limit) (sort newer msgs)

-- The whole WHERE of GetHistory behind r.user_id = $1.
abbrev pub history_wanted : Int64 → Int64 → Int64 → RefRow → MessageRow → Bool
history_wanted self peer offset_id r m =
    in_conversation self peer m && (if ltb int0 offset_id then ltb r.message_id offset_id else true)

unfoldable pub get_history : Int64 → Int64 → Int64 → Int64 → Sql (List Message)
unfolding reach joined other
get_history self peer offset_id limit = do
  reach
  raise_if (ltb limit int0) bad_limit
  ask (λ t. newest limit (joined self (history_wanted self peer offset_id) (refs_of self t) t))

module _ (trim_space : Str → Str) (ilike : Str → Str → Bool) where
  unfoldable pub search_messages : Int64 → Int64 → Str → Int64 → Sql (List Message)
  unfolding reach joined other
  search_messages self peer query limit =
      let q = trim_space query in
      let n = if leb limit int0 || ltb (int 100) limit then int 100 else limit in
      if str_eq q [] then give [] else do
        reach
        ask (λ t. newest n (
            joined self
              (λ r m. in_conversation self peer m && ilike m.text (b'%' ∷ (q ++ b'%' ∷ [])))
              (refs_of self t) t))
