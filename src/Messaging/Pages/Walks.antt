-- ===== src/Messaging/Pages/Walks.antt =====
-- What a client gets that follows the cursors of a list.
use claude_at_work_project.Prelude.{
  ℕ, ◌≤◌, ◌<◌, ◌≡◌, refl, ◌∙◌, Bool, true, false, ◌&&◌, ◌||◌, Option, none, some, List, [], ◌∷◌,
  arith, leb, ◌==◌, length, count, select, Unique, Unique-select, length-select, count-select_and,
  Apart, All,
}
use claude_at_work_project.Shared.Pagination.{Text, is_empty, page_request_for, parse_parts, join}
use claude_at_work_project.Shared.Pagination.Cursors.{
  IsBase64, IsPart, decode_cursor-encode_cursor, is_empty-encode_cursor,
}
use claude_at_work_project.Shared.Pagination.Walk.{walk, walk-table, IsRead, IsOrder, Sorted}
use claude_at_work_project.Shared.Pagination.Ordered.{
  AllDiffer, order_by, order_by-Sorted, count-order_by, length-order_by,
}
use claude_at_work_project.Messaging.Models.{Uuid, Message}
use claude_at_work_project.Messaging.Session.{Session}
use claude_at_work_project.Messaging.Pages.{
  newer, is_in_history, history, id_cursor, history_page, id_request,
}

-- The text of a UUID is read back, and it is some text without the separator.
pub record IsShown (show : Uuid → Text) (read : Text → Option Uuid) : Type 0 where
  pub back : (id : Uuid) → read (show id) ≡ some id
  pub plain : (id : Uuid) → IsPart (show id)
  pub some_text : (id : Uuid) → is_empty (show id) ≡ false

module _ (encode : Text → Text) (decode : Text → Option Text) (show : Uuid → Text)
    (read : Text → Option Uuid) (b : IsBase64 encode decode) (shown : IsShown show read) where
  id_request-IsRead :
      (limit : ℕ)
      → 1 ≤ limit
      → limit ≤ 200
      → IsRead (id_cursor encode show) (id_request decode read) limit
  unfolding id_request page_request_for parse_parts join
  id_request-IsRead limit low high =
      let one : leb 1 limit ≡ true = ground arith in
      let many : leb limit 200 ≡ true = ground arith in
      record {
        first = rw (one, many) refl;
        later = λ id.
            let plain : IsPart (show id) × Unit {0} = (shown.plain id, tt) in
            let parsed : parse_parts (read ∷ []) (show id ∷ []) ≡ some (id ∷ []) =
              rw (shown.back id, parse_parts) refl in
            let (read_back, raw) =
              decode_cursor-encode_cursor encode decode (read ∷ []) (show id) [] (id ∷ []) b plain
                parsed in
            let some_cursor =
              is_empty-encode_cursor encode decode (show id) [] b (shown.some_text id) plain in
            rw (one, many) (rw (some_cursor, page_request_for) (rw read_back refl));
      }

newer-IsOrder : IsOrder newer
newer-IsOrder = record { irreflexive = λ a. ground arith; asymmetric = λ a b e. ground arith }

newer_transitive : (a b c : Uuid) → newer a b ≡ true → newer b c ≡ true → newer a c ≡ true
newer_transitive a b c e f = ground arith

abbrev pub same_id : Message → Message → Bool
same_id a b = a.id == b.id

Differs-newer :
    (m : Message) (ms : List Message)
    → Apart same_id m ms
    → All (λ x. newer m.id x.id || newer x.id m.id ≡ true) ms
Differs-newer m [] h = tt
Differs-newer m (x ∷ ms) h = (ground arith, Differs-newer m ms h.1)

AllDiffer-newer : (ms : List Message) → Unique same_id ms → AllDiffer newer (λ m. m.id) ms
AllDiffer-newer [] h = tt
AllDiffer-newer (m ∷ ms) h = (Differs-newer m ms h.0, AllDiffer-newer ms h.1)

-- Where ids are unique, and UUIDs and base64 as documented, a client that asks for a channel's
-- history with a limit from 1 to 200 and follows the cursors gets, within one more request than
-- there are messages, the channel's messages that are no replies: newest first, each exactly once.
pub walk-history_page :
    (encode : Text → Text) (decode : Text → Option Text) (show : Uuid → Text)
    (read : Text → Option Uuid) (s : Session) (channel : Uuid) (limit fuel : ℕ) (p : Message → Bool)
    → IsBase64 encode decode
    → IsShown show read
    → Unique same_id s.messages
    → 1 ≤ limit
    → limit ≤ 200
    → length s.messages < fuel
    → (walk (id_request decode read) (history_page encode show s channel) limit fuel none
        ≡ some (history s channel))
      × Sorted newer (λ m. m.id) (history s channel)
      × (count p (history s channel) ≡ count (λ m. p m && is_in_history channel m) s.messages)
unfolding history history_page
walk-history_page encode decode show read s channel limit fuel p b shown one low high enough =
    let rows = select (is_in_history channel) s.messages in
    let sorted =
      order_by-Sorted newer (λ m. m.id) newer_transitive rows
        (AllDiffer-newer rows (Unique-select same_id (is_in_history channel) s.messages one)) in
    (
      walk-table newer (λ m. m.id) (id_cursor encode show) (id_request decode read) limit fuel
          (order_by newer (λ m. m.id) rows) newer-IsOrder low
          (id_request-IsRead encode decode show read b shown limit low high) sorted
          (omega (
            arith,
            enough,
            length-order_by newer (λ m. m.id) rows,
            length-select (is_in_history channel) s.messages,
          )),
      sorted,
      count-order_by newer (λ m. m.id) p rows
          ∙ count-select_and p (is_in_history channel) s.messages,
    )
