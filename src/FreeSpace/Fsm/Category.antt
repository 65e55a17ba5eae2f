-- ===== src/FreeSpace/Fsm/Category.antt =====
-- The categories of free space: what a page with a category offers to a request.
use fiddlers_db.Prelude.{◌≡◌, ◌-◌}
use fiddlers_db.Prelude.{ℕ, ◌+◌, ◌-◌, ◌*◌, ◌/◌, ◌≤◌, ◌<◌, arith}
use fiddlers_db.Prelude.{List, length, none, lt→leb, ◌+◌}
use fiddlers_db.Prelude.Outcome.{ok, err}
use fiddlers_db.Page.{
  Page, insert_record, can_insert, insert_record_error, max_available_space, find_free_slot_index,
}
use fiddlers_db.Page.Valid.{IsValid}
use fiddlers_db.Page.Layout.{max_tupel_size}
use native.Mathlib.Nat.{div-eq_of_lt-le}
use fiddlers_db.FreeSpace.Fsm.{Fsm, page_space_to_category, space_needed_to_category}
use native.Mathlib.Nat.{div-mul-le_self, div-add-mod', mod-lt}

-- The rounded quotient covers the number that was divided.
le-ceil : (n step : ℕ) → 0 < step → n ≤ (n + (step - 1)) / step * step
le-ceil n step h = omega (arith, div-add-mod' (n + (step - 1)) step, mod-lt (n + (step - 1)) h)

mul_mono : (a b c : ℕ) → a ≤ b → a * c ≤ b * c
mul_mono a b c h = grind arith

-- A page whose category is at least the category of a request has the bytes that are requested, if
-- no more are requested than a new page offers.
pub category_enough :
    (fsm : Fsm) (needed available : ℕ)
    → 0 < fsm.fsm_category_step
    → needed ≤ max_tupel_size fsm.page_layout
    → space_needed_to_category fsm needed ≤ page_space_to_category fsm available
    → needed ≤ available
unfolding page_space_to_category space_needed_to_category
category_enough fsm needed available step fits h =
    let up = le-ceil needed fsm.fsm_category_step step in
    let low = div-mul-le_self available fsm.fsm_category_step in
    let mono =
      mul_mono ((needed + (fsm.fsm_category_step - 1)) / fsm.fsm_category_step)
        (available / fsm.fsm_category_step) fsm.fsm_category_step in
    ground arith

full_steps-div : (steps step : ℕ) → 0 < step → (steps * step) / step ≡ steps
full_steps-div steps step h = div-eq_of_lt-le step (omega arith) (grind arith)

full_steps-ceil : (steps step : ℕ) → 0 < step → (steps * step + (step - 1)) / step ≡ steps
full_steps-ceil steps step h = div-eq_of_lt-le step (omega arith) (grind arith)

category-le :
    (fsm : Fsm) (steps n : ℕ)
    → 0 < fsm.fsm_category_step
    → 0 < steps
    → steps ≤ 254
    → n ≡ steps * fsm.fsm_category_step
    → n < max_tupel_size fsm.page_layout
    → space_needed_to_category fsm n ≤ page_space_to_category fsm n
unfolding page_space_to_category space_needed_to_category
category-le fsm steps n step some_step few size fits =
    let a = full_steps-div steps fsm.fsm_category_step step in
    let b = full_steps-ceil steps fsm.fsm_category_step step in
    let low : n / fsm.fsm_category_step ≡ steps = rw size a in
    let up : (n + (fsm.fsm_category_step - 1)) / fsm.fsm_category_step ≡ steps = rw size b in
    ground arith

-- A valid page that has exactly the bytes of a request free, and no deleted slot that they fit, has
-- a category that is high enough for the request, where the bytes fill steps of the categories and
-- are fewer than a new page offers; but the page refuses the record, since the slot has no room.
pub category_overlooks_slot :
    (fsm : Fsm) (p : Page) (bytes : List ℕ) (steps : ℕ)
    → IsValid p
    → 0 < fsm.fsm_category_step
    → 0 < steps
    → steps ≤ 254
    → length bytes ≡ steps * fsm.fsm_category_step
    → length bytes < max_tupel_size fsm.page_layout
    → max_available_space p ≡ ok (length bytes)
    → find_free_slot_index p bytes ≡ none
    → (space_needed_to_category fsm (length bytes) ≤ page_space_to_category fsm (length bytes))
      × (insert_record p bytes ≡ err insert_record_error)
unfolding insert_record can_insert
category_overlooks_slot fsm p bytes steps v step some_step few size fits available nothing = (
  category-le fsm steps (length bytes) step some_step few size fits,
  rw (nothing, available, lt→leb (length bytes + 7) (length bytes) (omega arith)),
)
