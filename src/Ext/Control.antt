-- ===== src/Ext/Control.antt =====
-- The control storage of `with_control` of src/ancillary.rs.
use unix_ancillary.Base.{
  ℕ, ◌≡◌, refl, arith, replicate, length-replicate, length-append, length-take, ◌++◌, Bool-cases,
  inl, inr, ltb, zero, ◌≤◌, length,
}
use unix_ancillary.Bytes.{Bytes}
use unix_ancillary.Bytes.Laws.{read_at-write_at}
use unix_ancillary.Ext.{control_storage, stack_array, stack_control}

length-stack_array : (uninit : Bytes) → length (stack_array uninit) ≡ stack_control
length-stack_array uninit = omega (
  arith,
  length-take stack_control (uninit ++ replicate stack_control 0),
  length-append uninit (replicate stack_control 0),
  length-replicate {A = ℕ} stack_control 0,
)

-- Whatever the uninitialised stack array holds, and on either side of the size limit, the control
-- storage of with_control is the requested number of zero bytes: none of them lies beyond the
-- STACK_CONTROL bytes of that array.
pub control_storage-replicate :
    (uninit : Bytes) (size : ℕ) → control_storage uninit size ≡ replicate size 0
unfolding control_storage
control_storage-replicate uninit size = elim (Bool-cases (ltb stack_control size)) [
  | inl heap ↦ rw heap refl
  | inr stack ↦
      let fits : size ≤ stack_control = ground arith in
      rw stack (
        read_at-write_at zero size (replicate size 0) (stack_array uninit)
          (length-replicate {A = ℕ} size 0) (omega (arith, fits, length-stack_array uninit)))
]
