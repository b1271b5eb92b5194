-- ===== src/Error/Classes.antt =====
-- How `is_transient`, `should_step_down` and `category` of src/error.rs go together.
use mathlib.Core.Bool.{true, false}
use iroh_raft.Common.{◌≡◌, refl, arith, &&-eq_true}
use iroh_raft.Error.{
  RaftError, Errors, nil, cons, is_transient, all_transient, should_step_down, any_step_down,
}

mutual
  unfolding is_transient should_step_down

  exclusive : (e : RaftError) → is_transient e ≡ true → should_step_down e ≡ false
  exclusive (RaftError.multiple c es) h = exclusive_all es h
  exclusive (RaftError.network_timeout _ _ _) h = refl
  exclusive _ h = ground arith

  exclusive_all : (es : Errors) → all_transient es ≡ true → any_step_down es ≡ false
  exclusive_all nil h = refl
  exclusive_all (cons e es) h =
      let both = &&-eq_true (is_transient e) (all_transient es) h in
      rw (exclusive e both.0, exclusive_all es both.1)

-- An error that may be retried never asks the node to step down, at any depth of nested errors.
pub is_transient-should_step_down :
    (e : RaftError) → is_transient e ≡ true → should_step_down e ≡ false
is_transient-should_step_down e h = exclusive e h
