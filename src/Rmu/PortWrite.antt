-- ===== src/Rmu/PortWrite.antt =====
-- The port writes of rapidio/fsl_rmu.c, and the error handler of a port of rapidio/fsl_rio.c. The kernel's fifo is a parameter.
use powerpc_i2c_temp.Prelude.{
  ℕ, zero, suc, ◌+◌, ◌*◌, leb, ◌==◌, bit_and, bit_or, if◌then◌else◌, ◌&&◌, Bool, Option, none, some,
  ◌∷◌,
}
use powerpc_i2c_temp.Prelude.Int.{ℤ, pos, ltb_ℤ}
use powerpc_i2c_temp.Prelude.Word.{u32, not32}
use powerpc_i2c_temp.Rmu.Machine.{
  odsr, dsr, pwmr, pwsr, epwqbar, pwqbar, epwisr, ltledcsr, ltleecsr, im0sr, im1sr, om0sr, om1sr,
  port_edcsr, port_iecsr, port_escsr, free, irq_off, schedule_work, fifo_alloc, inb_pwrite, Log,
  Machine, in_be32, out_be32, dma_alloc, request_irq,
}
use powerpc_i2c_temp.Rmu.Outbound.{enomem, has}

abbrev pub ipwmr_sen : ℕ
ipwmr_sen = 0x00100000

abbrev pub ipwmr_qfie : ℕ
ipwmr_qfie = 0x100

abbrev pub ipwmr_eie : ℕ
ipwmr_eie = 0x20

abbrev pub ipwmr_cq : ℕ
ipwmr_cq = 0x2

abbrev pub ipwmr_pwe : ℕ
ipwmr_pwe = 0x1

abbrev pub ipwsr_te : ℕ
ipwsr_te = 0x80

abbrev pub ipwsr_qfi : ℕ
ipwsr_qfi = 0x10

abbrev pub ipwsr_pwd : ℕ
ipwsr_pwd = 0x8

abbrev pub epwisr_pint1 : ℕ
epwisr_pint1 = 0x80000000

abbrev pub epwisr_pint2 : ℕ
epwisr_pint2 = 0x40000000

abbrev pub epwisr_mu : ℕ
epwisr_mu = 0x2

abbrev pub epwisr_pw : ℕ
epwisr_pw = 0x1

-- `RIO_PW_MSG_SIZE`, of the kernel.
abbrev pub pw_msg_size : ℕ
pw_msg_size = 64

-- The kernel's `kfifo`, over its state: the room in bytes, and a port-write message put in and taken out.
pub record Kfifo (F : Type 0) : Type 0 where
  pub avail : F → ℕ
  pub put_in : ℕ → F → F
  pub take_out : F → Option (ℕ × F)

-- `struct fsl_rio_pw`, with the counters of `struct rio_port_write_msg`. A message is known by a number, `message`
-- is the one in the buffer of the controller.
pub record Pw (F : Type 0) : Type 0 where
  pub message : ℕ
  pub msg_count : ℕ
  pub err_count : ℕ
  pub discard_count : ℕ
  pub pw_fifo : F

module _ (k : Machine) where
  -- `fsl_rio_port_error_handler`, for port 1 (offset 0) or port 2.
  unfoldable pub port_error_handler : ℕ → Log → Log
  port_error_handler offset l =
      let port = if offset == 0 then 1 else 2 in
      let l1 = out_be32 k (port_edcsr port) 0 (out_be32 k ltledcsr 0 l) in
      out_be32 k (port_escsr port) 0x07120204 (out_be32 k (port_iecsr port) 0x80000000 l1)

  unfoldable pub msg_unit_error_handler : Log → Log
  msg_unit_error_handler l =
      let l1 = out_be32 k im1sr 0x491 (out_be32 k im0sr 0x491 (out_be32 k ltledcsr 0 l)) in
      let l2 = out_be32 k om1sr 0x1cb3 (out_be32 k om0sr 0x1cb3 l1) in
      out_be32 k pwsr 0x98 (out_be32 k dsr 0x91 (out_be32 k odsr 0x1c00 l2))

  module _ {F : Type 0} (f : Kfifo F) where
    -- A message is saved if there is room, and counted as discarded otherwise.
    unfoldable pub save_message : Pw F → Pw F
    save_message pw =
        if leb pw_msg_size (f.avail pw.pw_fifo)
        then record pw {
          msg_count = u32 (pw.msg_count + 1);
          pw_fifo = f.put_in pw.message pw.pw_fifo;
        }
        else record pw { discard_count = u32 (pw.discard_count + 1) }

    -- The three parts of the handler, with the values of the mode and the status register.
    unfoldable pub on_full : (ipwmr ipwsr : ℕ) → Pw F → Log → Pw F × Log
    on_full ipwmr ipwsr pw l =
        if has ipwsr ipwsr_qfi
        then (
          save_message pw,
          schedule_work ∷ out_be32 k pwmr (bit_or ipwmr ipwmr_cq) (out_be32 k pwsr ipwsr_qfi l),
        )
        else (pw, l)

    unfoldable pub on_error : (ipwmr ipwsr : ℕ) → Pw F → Log → Pw F × Log
    on_error ipwmr ipwsr pw l =
        if has ipwmr ipwmr_eie && has ipwsr ipwsr_te
        then (
          record pw { err_count = u32 (pw.err_count + 1) },
          out_be32 k pwmr ipwmr
              (out_be32 k pwsr ipwsr_te (out_be32 k pwmr (bit_and ipwmr (not32 ipwmr_pwe)) l)),
        )
        else (pw, l)

    unfoldable pub on_discard : ℕ → Pw F → Log → Pw F × Log
    on_discard ipwsr pw l =
        if has ipwsr ipwsr_pwd
        then (record pw { discard_count = u32 (pw.discard_count + 1) }, out_be32 k pwsr ipwsr_pwd l)
        else (pw, l)

    unfoldable pub on_port_write : Pw F → Log → Pw F × Log
    unfolding on_full on_error on_discard save_message
    on_port_write pw l =
        let (ipwmr, l1) = in_be32 k pwmr l in
        let (ipwsr, l2) = in_be32 k pwsr l1 in
        let (pw1, l3) = on_full ipwmr ipwsr pw l2 in
        let (pw2, l4) = on_error ipwmr ipwsr pw1 l3 in on_discard ipwsr pw2 l4

    -- A handler for one of the other causes, after a read of the error register.
    unfoldable pub on_cause : ℕ → ℕ → (Log → Log) → Log → Log
    on_cause value mask handler l = if has value mask then handler (in_be32 k ltledcsr l).1 else l

    unfoldable pub port_write_handler : Pw F → Log → Pw F × Log
    unfolding on_port_write on_cause port_error_handler msg_unit_error_handler
    port_write_handler pw l =
        let (value, l1) = in_be32 k epwisr l in
        let (pw', l2) = if has value epwisr_pw then on_port_write pw l1 else (pw, l1) in
        let l3 = on_cause value epwisr_pint1 (port_error_handler 0) l2 in
        let l4 = on_cause value epwisr_pint2 (port_error_handler 1) l3 in
        (pw', on_cause value epwisr_mu msg_unit_error_handler l4)

    -- The deferred work: at most `rounds` messages go to the RapidIO core.
    unfoldable pub pw_dpc : ℕ → Pw F → Log → Pw F × Log
    pw_dpc zero pw l = (pw, l)
    pw_dpc (suc rounds) pw l = elim (f.take_out pw.pw_fifo) [
      | none ↦ (pw, l)
      | some (message, fifo) ↦ pw_dpc rounds (record pw { pw_fifo = fifo }) (inb_pwrite message ∷ l)
    ]

  unfoldable pub pw_enable : Bool → Log → ℤ × Log
  pw_enable enable l =
      let (value, l1) = in_be32 k pwmr l in
      (
        pos 0,
        out_be32 k pwmr (if enable then bit_or value ipwmr_pwe else bit_and value (not32 ipwmr_pwe))
            l1,
      )

  -- `fsl_rio_port_write_init`, without the values in memory.
  unfoldable pub port_write_init : ℕ → Log → ℤ × Log
  port_write_init line l =
      let (value, l1) = in_be32 k pwmr l in
      let l2 = out_be32 k pwmr (bit_and value (not32 ipwmr_pwe)) l1 in
      let (a, l3) = dma_alloc k pw_msg_size l2 in
      elim a [
        | none ↦ (enomem, l3)
        | some phys ↦
            let l4 = out_be32 k pwqbar phys (out_be32 k epwqbar 0 l3) in
            let l5 = out_be32 k pwmr 0x00100122 (out_be32 k pwsr 0x98 l4) in
            let (rc, l6) = request_irq k line l5 in
            let lost = free pw_msg_size (some phys) in
            if ltb_ℤ rc (pos 0)
            then (rc, lost ∷ l6)
            else (let l7 = out_be32 k ltleecsr 0xFFC000FC l6 in
                let done = k.fifo_answer l7 in
                let l8 = fifo_alloc (pw_msg_size * 32) done ∷ l7 in
                if done then (rc, l8) else (enomem, lost ∷ irq_off line ∷ l8))
      ]
