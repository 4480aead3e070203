-- ===== src/Attention/Tests.antt =====
-- The theorems on one stockout.
use harmony_takehome.Prelude.{◌≡◌, refl, true, false, List, [], ◌∷◌, some}
use harmony_takehome.Domain.{AttentionItem}
use harmony_takehome.Domain.Attention.{pending_approval}
use harmony_takehome.Domain.Triggers.{AttentionTrigger, stockout_attention}
use harmony_takehome.Workflow.Samples.{python}
use harmony_takehome.Attention.{
  AttentionDb, Request, registers, transitions, perform, run_requests, register, load,
  triggered_item, moved,
}
use harmony_takehome.Attention.Registrations.{
  run_requests-one_item, HasKeys, run_requests-Becomes, Becomes,
}
use harmony_takehome.Attention.Deduplication.{register-once}
use harmony_takehome.Attention.Records.{perform-Recorded, Recorded}

abbrev trigger : AttentionTrigger
trigger = stockout_attention python (record {
  detector = "stockout";
  part_id = "part";
  production_order_id = "order";
  inventory_version = 3;
  production_start_date = 20;
  detected_at = 5;
  source_versions = ("inventory", 3) ∷ [];
})

abbrev empty_db : AttentionDb
empty_db = record { items = []; ledger = [] }

abbrev item : AttentionItem
item = triggered_item "first" trigger

abbrev requests : List Request
requests =
    transitions "e2" item pending_approval "run" 6 ∷ registers "second" "e3" trigger "run" ∷ []

-- The first registration, and the second after the requests.
abbrev after_first : AttentionDb
after_first = (register python "first" "e1" trigger "run" empty_db).1

abbrev between : AttentionDb
between = run_requests python requests after_first

abbrev after_second : AttentionDb
after_second = (register python "third" "e4" trigger "run" between).1

abbrev moved_item : AttentionItem
moved_item = moved pending_approval 6 item

run_requests-one_item_example : HasKeys between.items
unfolding register stockout_attention
run_requests-one_item_example =
    run_requests-one_item python requests after_first ((tt, tt), (tt, tt))

run_requests-Becomes_example :
    (b : AttentionItem) × (load "first" between ≡ some b) × Becomes item b
unfolding register load stockout_attention
run_requests-Becomes_example = run_requests-Becomes python "first" requests after_first item refl

register-once_example :
    (false ≡ false) × Becomes item moved_item × (after_second.items ≡ between.items)
unfolding register run_requests stockout_attention
register-once_example =
    register-once python "first" "third" "e1" "e4" "run" "run" trigger trigger requests empty_db
      after_first after_second (record { attention = item; created = true })
      (record { attention = moved_item; created = false }) refl refl refl

perform-Recorded_example :
    Recorded python after_first
      (perform python (transitions "e2" item pending_approval "run" 6) after_first)
perform-Recorded_example =
    perform-Recorded python (transitions "e2" item pending_approval "run" 6) after_first
