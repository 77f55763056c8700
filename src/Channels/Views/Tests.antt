-- ===== src/Channels/Views/Tests.antt =====
-- What reaches the inbox of the shared store.
use ainsel.Prelude.{◌≡◌, ◌↔◌, true, false, arith, nat_eq, Has}
use ainsel.Prelude.Order.Insertion.{sorter}
use ainsel.Trigger.Text.Laws.{str_ltb_asym, str_ltb_steps}
use ainsel.Trigger.Index.{Trigger}
use ainsel.Channels.Rows.{Bridge}
use ainsel.Channels.Graph.{forwards, Leads}
use ainsel.Channels.Walk.Found.{IsStored}
use ainsel.Channels.Tests.{text_less, store}
use ainsel.Channels.Views.{bridge_less, Ordering, reaching_into}
use ainsel.Channels.Views.Reaching.{reaching_into_iff}

bridge_asym : (a b : Bridge) → bridge_less text_less a b ≡ true → bridge_less text_less b a ≡ false
bridge_asym a b h = ground (arith, str_ltb_asym a.id b.id, str_ltb_asym b.id a.id, h)

bridge_steps :
    (a b c : Bridge)
    → bridge_less text_less b a ≡ false
    → bridge_less text_less c b ≡ false
    → bridge_less text_less c a ≡ false
bridge_steps a b c h k = ground (arith, str_ltb_steps a.id b.id c.id, h, k)

abbrev ordering : Ordering
ordering = record {
  text_less = text_less;
  sort_ids = sorter text_less str_ltb_asym str_ltb_steps;
  sort_bridges = sorter (bridge_less text_less) bridge_asym bridge_steps;
  sort_triggers =
      sorter (λ (s t : Trigger). text_less s.id t.id)
        (λ (s t : Trigger) h. str_ltb_asym s.id t.id h)
        (λ (s t u : Trigger) h k. str_ltb_steps s.id t.id u.id h k);
}

reaching_into_iff_example :
    Has "c1" (reaching_into ordering store "a1")
    ↔ (IsStored store "a1" × Leads forwards store.bridges "c1" "a1")
reaching_into_iff_example = reaching_into_iff ordering store "a1" "c1"
