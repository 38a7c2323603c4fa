-- ===== src/Rmu/Doorbell.antt =====
-- The doorbells of rapidio/fsl_rmu.c.
use powerpc_i2c_temp.Prelude.{
  ℕ, zero, suc, ◌*◌, leb, ◌==◌, bit_and, bit_or, if◌then◌else◌, ◌&&◌, Bool, true, false, Option,
  none, some, List, [], ◌∷◌,
}
use powerpc_i2c_temp.Prelude.Int.{ℤ, pos, ltb_ℤ}
use powerpc_i2c_temp.Prelude.Word.{u32, not32, ◌<<<◌}
use powerpc_i2c_temp.Rmu.Machine.{
  odmr, odsr, oddpr, oddatr, dmr, dsr, dqdpar, dqepar, dinb, free, Log, Machine, in_be32, out_be32,
  setbits32, dma_alloc, request_irq,
}
use powerpc_i2c_temp.Rmu.Outbound.{enomem, has}

abbrev pub dmr_di : ℕ
dmr_di = 0x2

abbrev pub dsr_te : ℕ
dsr_te = 0x80

abbrev pub dsr_qfi : ℕ
dsr_qfi = 0x10

abbrev pub dsr_diqi : ℕ
dsr_diqi = 0x1

-- `struct rio_dbell_msg`.
pub record DbellMsg : Type 0 where
  pub tid : ℕ
  pub sid : ℕ
  pub info : ℕ

-- A registered doorbell, `struct rio_dbell`: the range of its resource and its event function, if it has one.
pub record Dbell : Type 0 where
  pub start : ℕ
  pub end_ : ℕ
  pub handler : Option ℕ

abbrev pub covers : ℕ → Dbell → Bool
covers info d = leb d.start info && leb info d.end_

-- The loop over the doorbells of a port: the first one whose range has the value.
unfoldable pub find_dbell : ℕ → List Dbell → Option Dbell
find_dbell info [] = none
find_dbell info (d ∷ ds) = if covers info d then some d else find_dbell info ds

-- The loop over the ports from number `i` on. `none` is a read of what is no doorbell, the head of a list: a port found one
-- without a function, and the next port has none that fits.
unfoldable pub dispatch : DbellMsg → ℕ → Bool → List (Option (List Dbell)) → Log → Option Log
dispatch msg i found [] l = some l
dispatch msg i found (none ∷ ports) l = dispatch msg (suc i) found ports l
dispatch msg i found (some ds ∷ ports) l =
    let next = λ (found' : Bool). dispatch msg (suc i) found' ports l in
    elim (find_dbell msg.info ds) [
      | none ↦ if found then none else next false
      | some d ↦ elim d.handler [
        | none ↦ next true
        | some h ↦ some (dinb i h msg.sid msg.tid msg.info ∷ l)
      ]
    ]

module _ (k : Machine) where
  -- The interrupt handler, with what the ring of doorbells holds at an offset.
  unfoldable pub dbell_handler : (ℕ → DbellMsg) → List (Option (List Dbell)) → Log → Option Log
  dbell_handler ring ports l =
      let (value, l1) = in_be32 k dsr l in
      if has value dsr_te
      then some (out_be32 k dsr dsr_te l1)
      else (let l2 = if has value dsr_qfi then out_be32 k dsr dsr_qfi l1 else l1 in
          let l3 = (in_be32 k dqdpar l2).1 in
          if has value dsr_diqi
          then (let (at, l4) = in_be32 k dqdpar l3 in
              elim (dispatch (ring (bit_and at 0xfff)) 0 false ports l4) [
                | none ↦ none
                | some l5 ↦ some (out_be32 k dsr dsr_diqi (setbits32 k dmr dmr_di l5))
              ])
          else some l3)

  -- The wait for the outbound doorbell unit, at most `left` looks.
  unfoldable pub wait_odsr : ℕ → Log → Log
  wait_odsr zero l = l
  wait_odsr (suc left) l =
      let (value, l1) = in_be32 k odsr l in
      let rest = wait_odsr left l1 in
      let (value', l2) = in_be32 k odsr l1 in
      if bit_and value 0x04 == 0 then out_be32 k odsr (bit_or value' 0x1c02) l2 else rest

  unfoldable pub doorbell_send : (destid info : ℕ) → Log → ℤ × Log
  unfolding wait_odsr
  doorbell_send destid info l =
      let l1 = out_be32 k odmr 0 (wait_odsr 0x100 l) in
      let l2 = out_be32 k oddpr (u32 (destid <<< 16)) l1 in
      let (value, l3) = in_be32 k oddatr l2 in
      let l4 = out_be32 k oddatr (bit_and value (not32 0xffff)) l3 in
      let (value', l5) = in_be32 k oddatr l4 in
      (pos 0, out_be32 k odmr 0x1 (out_be32 k oddatr (bit_or value' info) l5))

  -- `fsl_rio_doorbell_init`: the answer, the address of the ring, and the log.
  unfoldable pub doorbell_init : ℕ → Log → ℤ × Option ℕ × Log
  doorbell_init line l =
      let (a, l1) = dma_alloc k (512 * 8) l in
      elim a [
        | none ↦ (enomem, none, l1)
        | some phys ↦
            let l2 = out_be32 k dsr 0x91 (out_be32 k dqepar phys (out_be32 k dqdpar phys l1)) in
            let (rc, l3) = request_irq k line l2 in
            if ltb_ℤ rc (pos 0)
            then (rc, some phys, free (512 * 8) (some phys) ∷ l3)
            else (rc, some phys, out_be32 k dmr 0x00108161 l3)
      ]
