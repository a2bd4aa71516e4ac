-- ===== src/Attention/Reading.antt =====
-- src/attention.rs: events that a person has seen.
use super_herdr.Common.{◌≡◌, refl, ap, Bool, true, false, not, ◌&&◌, List, [], ◌∷◌, ite, arith}
use super_herdr.Common.Tests.{◌==◌}
use super_herdr.Common.Lists.{length, keep, any, All}
use super_herdr.Model.{PaneId, id_ord}
use super_herdr.Payloads.{AttentionEvent}
use super_herdr.Attention.{
  AttentionIndex, unread_count, is_for, has_unread_for_pane, mark_seen, mark_seen_for_pane,
  clear_seen,
}

abbrev unread_for : PaneId → AttentionEvent → Bool
unread_for pane event = event.unread && is_for pane event

any-mark_seen :
    (pane : PaneId) (events : List AttentionEvent) (p : PaneId)
    → any (unread_for p) (mark_seen (is_for pane) events).0
      ≡ ite (id_ord.same pane p) false (any (unread_for p) events)
unfolding mark_seen
any-mark_seen pane [] p = ground arith
any-mark_seen pane (event ∷ events) p = ground (arith, any-mark_seen pane events p)

changed-mark_seen :
    (pane : PaneId) (events : List AttentionEvent)
    → (mark_seen (is_for pane) events).1 ≡ any (unread_for pane) events
unfolding mark_seen
changed-mark_seen pane [] = refl
changed-mark_seen pane (event ∷ events) = ground (arith, changed-mark_seen pane events)

-- Marking a pane's events seen leaves it nothing unread, changes what is unread of no other pane, and
-- reports exactly whether anything was unread.
pub has_unread-mark_seen :
    (pane : PaneId) (index : AttentionIndex) (p : PaneId)
    → (has_unread_for_pane p (mark_seen_for_pane pane index).0
        ≡ ite (id_ord.same pane p) false (has_unread_for_pane p index))
      × ((mark_seen_for_pane pane index).1 ≡ has_unread_for_pane pane index)
unfolding has_unread_for_pane mark_seen_for_pane
has_unread-mark_seen pane index p =
    (any-mark_seen pane index.events p, changed-mark_seen pane index.events)

unread-keep :
    (events : List AttentionEvent)
    → All
        (λ (event : AttentionEvent). event.unread ≡ true)
        (keep (λ (event : AttentionEvent). event.unread) events)
unread-keep [] = tt
unread-keep (event ∷ events) = ground (arith, unread-keep events)

keep-unread :
    (events : List AttentionEvent)
    → keep
        (λ (event : AttentionEvent). event.unread)
        (keep (λ (event : AttentionEvent). event.unread) events)
      ≡ keep (λ (event : AttentionEvent). event.unread) events
keep-unread [] = refl
keep-unread (event ∷ events) = ground (arith, keep-unread events)

-- Clearing what was seen leaves only unread events, as many as there were, and reports exactly
-- whether there were others.
pub unread-clear_seen :
    (index : AttentionIndex)
    → All (λ (event : AttentionEvent). event.unread ≡ true) (clear_seen index).0.events
      × (unread_count (clear_seen index).0 ≡ unread_count index)
      × ((clear_seen index).1 ≡ not (length index.events == unread_count index))
unfolding unread_count clear_seen
unread-clear_seen index = (
  unread-keep index.events,
  ap (λ (events : List AttentionEvent). length events) (keep-unread index.events),
  refl,
)
