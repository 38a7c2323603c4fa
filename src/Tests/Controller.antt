-- ===== src/Tests/Controller.antt =====
-- The properties of interrupts and of the probe of the DMA driver on small machines.
use powerpc_i2c_temp.Prelude.{
  ℕ, ◌+◌, ◌*◌, ◌^◌, ◌==◌, if◌then◌else◌, ◌≡◌, refl, arith, true, false, none, some, List, [], ◌∷◌,
}
use powerpc_i2c_temp.Prelude.Int.{pos, negsuc}
use powerpc_i2c_temp.Dma.Kernel.{Platform}
use powerpc_i2c_temp.Dma.Hardware.{dma_init, set_desc_src, set_desc_dst, set_desc_next, set_ld_eol}
use powerpc_i2c_temp.Dma.Queue.{link_tail}
use powerpc_i2c_temp.Dma.Prepare.{
  piece, finish, prepared, fault, prep_sg, sg_loop, populate, fetch_both, fetch, next_entry,
  finish_sg,
}
use powerpc_i2c_temp.Dma.Irq.{
  chan_irq, Irqs, Entry, absent, line, free_line, free_lines, request_loop, request_irqs,
  ctrl_irq_loop,
}
use powerpc_i2c_temp.Dma.IrqLaws.{Lines, counted, Requested, request_irqs-Requested}
use powerpc_i2c_temp.Dma.CtrlIrq.{serve, ctrl_irq_loop-serve}
use powerpc_i2c_temp.Dma.Probe.{Node, Device, chan_probe, probe_node, probe_nodes, of_probe}
use powerpc_i2c_temp.Dma.ProbeLaws.{IsGood}
use powerpc_i2c_temp.Tests.Channel.{machine}

-- A kernel that refuses line 9.
abbrev irqs : Irqs ℕ
irqs = record {
  request_irq = λ irq e. (if irq == 9 then negsuc 15 else pos 0, e);
  free_irq = λ irq e. e;
}

abbrev table : List Entry
table = line 8 ∷ absent ∷ line 9 ∷ line 10 ∷ []

abbrev no_lines : Lines ℕ
no_lines = record { inner = 0; granted = []; freed = [] }

request_irqs-Requested_example :
    Requested irqs [] table no_lines (request_irqs (counted irqs) none table no_lines)
request_irqs-Requested_example = request_irqs-Requested irqs table no_lines

refused_line_freed : (request_irqs (counted irqs) none table no_lines).1.freed ≡ 9 ∷ 8 ∷ []
unfolding request_irqs request_loop free_lines free_line counted
refused_line_freed = refl

abbrev status_of : ℕ → Platform ℕ
status_of n = record machine { dma_in = λ r e. (n, e) }

-- The second channel is missing, and the third one is served on the second byte.
ctrl_irq_loop-serve_example :
    ctrl_irq_loop 0
      (1 * 2 ^ 24 + (2 * 2 ^ 16 + (0 * 2 ^ 8 + 0)))
      0xff000000
      (some (status_of 8) ∷ none ∷ some (status_of 8) ∷ [])
      0
    ≡ serve 0 (1 ∷ 2 ∷ 0 ∷ 0 ∷ []) (some (status_of 8) ∷ none ∷ some (status_of 8) ∷ []) 0
ctrl_irq_loop-serve_example =
    ctrl_irq_loop-serve ℕ 1 2 0 0 (omega arith) (omega arith) (omega arith) (omega arith)
      (some (status_of 8) ∷ none ∷ some (status_of 8) ∷ []) 0

abbrev node_at : ℕ → Node
node_at n = record {
  number = n;
  eloplus = true;
  elo = false;
  answers = record {
    memory = true;
    regs = true;
    err = pos 0;
    res_start = 0x100 + n * 0x80;
    irq = some (20 + n);
  };
}

node_at-IsGood : IsGood (node_at 0) × IsGood (node_at 1)
node_at-IsGood = (
  record {
    newer = refl;
    not_older = refl;
    memory = refl;
    regs = refl;
    found = refl;
    room = omega arith;
  },
  record {
    newer = refl;
    not_older = refl;
    memory = refl;
    regs = refl;
    found = refl;
    room = omega arith;
  },
)

abbrev two_channels : Device
two_channels = record {
  feature = 0x11;
  chan = line 20 ∷ line 21 ∷ absent ∷ absent ∷ [];
  channels = 0 ∷ 1 ∷ [];
  griodma_chan = some 1;
}

probed :
    of_probe (λ n. machine) irqs true true none (node_at 0 ∷ node_at 1 ∷ []) none 0
    ≡ (pos 0, some two_channels, 0)
unfolding of_probe probe_nodes probe_node chan_probe request_irqs request_loop dma_init
probed = refl

-- Entries of length 0 only: a null pointer is followed.
empty_entries : prep_sg machine 0x10 1 ((4096, 0) ∷ []) 1 ((8192, 0) ∷ []) 3 5 0 ≡ some (fault, 0)
unfolding prep_sg sg_loop populate fetch_both fetch next_entry finish_sg
empty_entries = refl

-- Two entries of 10 bytes into one of 20: two descriptors.
two_pieces :
    prep_sg machine 0x20 2 ((4096, 20) ∷ []) 2 ((8192, 10) ∷ (12288, 10) ∷ []) 3 5 0
    ≡ some (
      prepared (
          record {
            src_addr = 8192;
            dst_addr = 4096;
            next_ln_addr = 64 + 16;
            count = 10;
            phys = 32;
            cookie = pos 0;
            flags = 2;
            callback = none;
          }
          ∷ record {
            src_addr = 12288;
            dst_addr = 4106;
            next_ln_addr = 17;
            count = 10;
            phys = 64;
            cookie = negsuc 15;
            flags = 3;
            callback = none;
          }
          ∷ []),
      2,
    )
unfolding prep_sg sg_loop populate fetch_both fetch next_entry finish_sg finish piece link_tail
    set_desc_src set_desc_dst set_desc_next set_ld_eol
two_pieces = refl

not_ours : chan_irq (status_of 0x24) 5 ≡ (false, 5)
unfolding chan_irq
not_ours = refl
