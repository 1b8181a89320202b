-- ===== src/Governance/Closure.antt =====
-- packages/governance/src/capability.ts: `computeCapabilityClosure`
--
-- `lookup` is the catalog's `resolve`, and `sort` the sort of texts; a step is the block that it uses. The
-- two functions that call each other are one here, on the list of the blocks that are left, and the depth
-- of the calls is the fuel.
pub mod Walks
pub mod Exact
pub mod Depth
use aart.Base.{
  ℕ, zero, suc, Bool, true, false, Option, none, some, List, [], ◌∷◌, ◌++◌, map, Text, text_eq, any,
  if◌then◌else◌,
}
use aart.Wait.Taint.{insert_new}
use aart.Governance.{RiskTier, low, max_risk_tier, risk_for_capability}

pub data CapabilityClosureNode : Type 0 where
  block : List Text → CapabilityClosureNode
  workflow : List Text → CapabilityClosureNode

pub record Walk : Type 0 where
  pub capabilities : List Text
  pub unresolved : List Text
  pub visited_blocks : List Text

pub record CapabilityClosureResult : Type 0 where
  pub capabilities : List Text
  pub risk_tier : RiskTier
  pub unresolved : List Text

abbrev pub is_visited : Text → Walk → Bool
is_visited block_id w = any (text_eq block_id) w.visited_blocks

abbrev pub visit : Text → Walk → Walk
visit block_id w = record w { visited_blocks = block_id ∷ w.visited_blocks }

abbrev pub and_then : Option Walk → (Walk → Option Walk) → Option Walk
and_then none next = none
and_then (some w) next = next w

module _ (lookup : Text → Option CapabilityClosureNode) where
  -- A block that is not visited before; `inside` walks the steps of a workflow.
  abbrev pub walk_node :
      (List Text → Walk → Option Walk) → Text → Option CapabilityClosureNode → Walk → Option Walk
  walk_node inside block_id none w =
      some (record w { unresolved = insert_new w.unresolved (block_id ∷ []) })
  walk_node inside block_id (some (block capabilities)) w =
      some (record w { capabilities = insert_new w.capabilities capabilities })
  walk_node inside block_id (some (workflow uses)) w = inside uses w

  abbrev pub walk_block : (List Text → Walk → Option Walk) → Text → Walk → Option Walk
  walk_block inside block_id w =
      if is_visited block_id w
      then some w
      else walk_node inside block_id (lookup block_id) (visit block_id w)

  abbrev pub walk_list : (List Text → Walk → Option Walk) → List Text → Walk → Option Walk
  walk_list inside [] w = some w
  walk_list inside (block_id ∷ uses) w =
      and_then (walk_block inside block_id w) (walk_list inside uses)

  abbrev pub too_deep : List Text → Walk → Option Walk
  too_deep uses w = none

  -- `walkSteps` and `walkBlock`.
  abbrev pub walk_steps : ℕ → List Text → Walk → Option Walk
  walk_steps zero uses w = walk_list too_deep uses w
  walk_steps (suc depth) uses w = walk_list (walk_steps depth) uses w

  abbrev pub risk_of : List Text → RiskTier
  risk_of [] = low
  risk_of (c ∷ capabilities) = max_risk_tier (map risk_for_capability (c ∷ capabilities))

  abbrev pub closure_of : (List Text → List Text) → Option Walk → Option CapabilityClosureResult
  closure_of sort none = none
  closure_of sort (some w) = some (record {
    capabilities = sort w.capabilities;
    risk_tier = risk_of (sort w.capabilities);
    unresolved = sort w.unresolved;
  })

  unfoldable pub compute_capability_closure :
      (List Text → List Text) → ℕ → List Text → Option CapabilityClosureResult
  compute_capability_closure sort depth uses =
      closure_of sort
        (walk_steps depth uses (record { capabilities = []; unresolved = []; visited_blocks = [] }))
