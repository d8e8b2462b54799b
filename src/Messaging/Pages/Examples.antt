-- ===== src/Messaging/Pages/Examples.antt =====
-- The history of a channel with two messages and a reply, one message on a page.
use claude_at_work_project.Prelude.{◌≡◌, ◌&&◌, refl, arith, true, none, some, [], ◌∷◌, count}
use claude_at_work_project.Shared.Pagination.Walk.{walk, Sorted}
use claude_at_work_project.Shared.Pagination.Samples.{
  fourfold, onefold, fourfold-IsBase64, unary, read_unary, read_unary_lem, unary-IsPart, unary_some,
}
use claude_at_work_project.Messaging.Session.{Db, Session}
use claude_at_work_project.Messaging.Messages.{new_message}
use claude_at_work_project.Messaging.Pages.{newer, is_in_history, history, history_page, id_request}
use claude_at_work_project.Messaging.Pages.Walks.{IsShown, walk-history_page}

abbrev rows : Db
rows = record {
  channels = [];
  members = [];
  reads = [];
  messages =
      new_message 1 7 10 none [] 5
      ∷ (new_message 3 7 11 none [] 6 ∷ (new_message 4 7 10 (some 3) [] 7 ∷ []));
  reactions = [];
}

abbrev session : Session
session = record { committed = rows; db = rows }

unary-IsShown : IsShown unary read_unary
unary-IsShown = record { back = read_unary_lem; plain = unary-IsPart; some_text = unary_some }

walk-history_page_example :
    (walk (id_request onefold read_unary) (history_page fourfold unary session 7) 1 4 none
      ≡ some (history session 7))
    × Sorted newer (λ m. m.id) (history session 7)
    × (count (λ m. true) (history session 7)
        ≡ count (λ m. true && is_in_history 7 m) session.messages)
walk-history_page_example =
    walk-history_page fourfold onefold unary read_unary session 7 1 4 (λ m. true) fourfold-IsBase64
      unary-IsShown ((refl, (refl, tt)), ((refl, tt), (tt, tt))) (omega arith) (omega arith)
      (omega arith)
