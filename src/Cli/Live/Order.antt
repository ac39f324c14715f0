-- ===== src/Cli/Live/Order.antt =====
-- Of the live session: the tracker observes what is sent, in the order in which it is sent.
use tcp_visr.Base.{
  ◌≡◌, refl, ap, sym, ◌||◌, Option, some, none, List, [], ◌∷◌, ◌++◌, bind, map_some,
}
use tcp_visr.Core.Segment.{Item}
use tcp_visr.Core.Name.{NameTable, observe_name}
use tcp_visr.Engine.Tracker.{Tracker, observe_item, observe_items}
use tcp_visr.Ingest.Live.{LiveEvent, item_event, name_event}
use tcp_visr.Tui.App.Commands.{observe_host}
use tcp_visr.Cli.Live.{Session, take_event, take_all, drain, is_segment}

abbrev pub items_of : List LiveEvent → List Item
items_of [] = []
items_of (item_event i ∷ evs) = i ∷ items_of evs
items_of (name_event obs ∷ evs) = items_of evs

-- The names once those in the events are known too.
abbrev pub names_after : NameTable → List LiveEvent → NameTable
names_after names [] = names
names_after names (item_event i ∷ evs) = names_after names evs
names_after names (name_event obs ∷ evs) = names_after (observe_name names obs) evs

pub items_of-append : (xs ys : List LiveEvent) → items_of (xs ++ ys) ≡ items_of xs ++ items_of ys
items_of-append [] ys = refl
items_of-append (item_event i ∷ xs) ys = ap (◌∷◌ i) (items_of-append xs ys)
items_of-append (name_event obs ∷ xs) ys = items_of-append xs ys

-- Observing one list of items and then another.
pub observe_items-append :
    (t : Tracker) (xs ys : List Item) {u : Tracker}
    → observe_items t xs ≡ some u
    → observe_items t (xs ++ ys) ≡ observe_items u ys
unfolding observe_items
observe_items-append t [] ys {u} h = let same : t ≡ u = cc in rw same refl
observe_items-append t (i ∷ xs) ys {u} h =
    step (observe_item t i) (λ v. observe_items-append v xs ys) h
  where
    step :
        (o : Option Tracker)
        → ((v : Tracker)
            → observe_items v xs ≡ some u
            → observe_items v (xs ++ ys) ≡ observe_items u ys)
        → elim o [ none ↦ none | some v ↦ observe_items v xs ] ≡ some u
        → elim o [ none ↦ none | some v ↦ observe_items v (xs ++ ys) ] ≡ observe_items u ys
    step none ih e = cc
    step (some v) ih e = ih v e

take_all-observes :
    (evs : List LiveEvent) (s : Session) {u : Session}
    → take_all evs s ≡ some u
    → (observe_items s.tracker (items_of evs) ≡ some u.tracker)
      × (u.app.host_names ≡ names_after s.app.host_names evs)
unfolding take_all take_event observe_items observe_host
take_all-observes [] s {u} h =
    let same : s ≡ u = cc in (ap (λ v. some v.tracker) same, ap (λ v. v.app.host_names) (sym same))
take_all-observes (name_event obs ∷ evs) s h = take_all-observes evs _ h
take_all-observes (item_event i ∷ evs) s {u} h =
    step (observe_item s.tracker i) (λ m. take_all-observes evs m) h
  where
    step :
        (o : Option Tracker)
        → ((m : Session)
            → take_all evs m ≡ some u
            → (observe_items m.tracker (items_of evs) ≡ some u.tracker)
              × (u.app.host_names ≡ names_after m.app.host_names evs))
        → bind (take_all evs) (
            map_some
              (λ t. record s { tracker = t; first_packet = s.first_packet || is_segment i })
              o)
          ≡ some u
        → (elim o [ none ↦ none | some v ↦ observe_items v (items_of evs) ] ≡ some u.tracker)
          × (u.app.host_names ≡ names_after s.app.host_names evs)
    step none ih e = cc
    step (some t) ih e = ih _ e

-- Draining the channel observes the items that wait, in order, and learns the names.
pub drain-observes :
    (s : Session) {u : Session}
    → drain s ≡ some u
    → (observe_items s.tracker (items_of s.queue) ≡ some u.tracker)
      × (u.app.host_names ≡ names_after s.app.host_names s.queue)
unfolding drain
drain-observes s h = take_all-observes s.queue (record s { queue = [] }) h
