-- ===== src/Tests/Channel.antt =====
-- The properties of the DMA driver on a small machine: a platform with a counter of what the pool gave out, whose
-- registers read 0.
use powerpc_i2c_temp.Prelude.{
  ℕ, ◌+◌, ◌*◌, ◌≡◌, refl, arith, true, Option, none, some, List, [], ◌∷◌, ◌++◌, length,
}
use powerpc_i2c_temp.Prelude.Int.{pos, negsuc}
use powerpc_i2c_temp.Dma.Kernel.{Desc, Platform, Chan}
use powerpc_i2c_temp.Dma.Hardware.{set_ld_eol, set_desc_src, set_desc_dst}
use powerpc_i2c_temp.Dma.Queue.{link_tail, tx_submit, xfer_ld_queue, dma_do_tasklet, issue_pending}
use powerpc_i2c_temp.Dma.Prepare.{piece, finish, memcpy_loop, prep_memcpy}
use powerpc_i2c_temp.Dma.Rio.{Board, Request, nread, nwrite}
use powerpc_i2c_temp.Dma.Watched.{Watched, watched}
use powerpc_i2c_temp.Dma.Fifo.{
  Event, submit, issue, tasklet, run, account, submitted, submitted_by, run-account, run_drains,
}
use powerpc_i2c_temp.Dma.Links.{IsQueue, here, next, issues, completes, Reach-IsQueue}
use powerpc_i2c_temp.Dma.Walk.{walk, xfer_walks}
use powerpc_i2c_temp.Dma.Pieces.{moves, Covers}
use powerpc_i2c_temp.Dma.Transfer.{copy_runs}
use powerpc_i2c_temp.Dma.Copy.{Copied, prep_memcpy_lem}
use powerpc_i2c_temp.Dma.RioLaws.{Ends, transfers_end}

abbrev pub machine : Platform ℕ
machine = record {
  dma_in = λ r e. (0, e);
  dma_out = λ r v e. e;
  udelay = λ n e. e;
  pool_create = λ e. (true, e);
  pool_destroy = λ e. e;
  pool_alloc = λ e. (some (32 * (e + 1)), e + 1);
  pool_free = λ p e. e;
  cookie_assign = λ e. (pos 1, e);
  cookie_complete = λ n e. e;
  status_success = λ n e. true;
  run_callback = λ p e. e;
  run_dependencies = λ p e. e;
  unmap_dst = λ u e. e;
  unmap_src = λ u e. e;
  tasklet_schedule = λ e. e;
  ilog2 = λ n. 0;
}

-- Two descriptors, the first one linked to the second.
abbrev first_desc : Desc
first_desc = record {
  src_addr = 4096;
  dst_addr = 8192;
  next_ln_addr = 64;
  count = 100;
  phys = 32;
  cookie = pos 0;
  flags = 2;
  callback = none;
}

abbrev last_desc : Desc
last_desc = record {
  src_addr = 4196;
  dst_addr = 8292;
  next_ln_addr = 1;
  count = 100;
  phys = 64;
  cookie = pos 0;
  flags = 3;
  callback = some 7;
}

abbrev start_state : Watched ℕ
start_state = record { inner = 0; pool = record { allocated = []; freed = [] }; at_cdar = 0 }

-- An idle channel of the newer controller with both descriptors pending.
abbrev channel : Chan (Watched ℕ)
channel = record {
  feature = 0x10;
  idle = true;
  desc_pool = true;
  ld_pending = first_desc ∷ last_desc ∷ [];
  ld_running = [];
  set_request_count = true;
  toggle_ext_start = true;
  env = start_state;
}

channel-IsQueue : IsQueue channel
channel-IsQueue = record { rests = λ h. refl; runs_chain = tt; pends_chain = (refl, refl) }

abbrev history : List Event
history = submit (record last_desc { phys = 96 }) [] ∷ issue ∷ tasklet ∷ []

run-account_example :
    account (run (watched machine) history channel) ≡ account channel ++ submitted history
run-account_example = run-account machine history channel

run_drains_example :
    let c' =
      dma_do_tasklet
        (watched machine)
        (dma_do_tasklet (watched machine) (run (watched machine) history channel)) in
    (c'.ld_running ≡ [])
    × (c'.ld_pending ≡ [])
    × (c'.env.pool.freed ≡ account channel ++ submitted history)
run_drains_example = run_drains machine history channel

freed_in_order :
    (dma_do_tasklet
      (watched machine)
      (dma_do_tasklet (watched machine) (run (watched machine) history channel))).env.pool.freed
    ≡ 32 ∷ 64 ∷ 96 ∷ []
unfolding submitted submitted_by
freed_in_order = (run_drains machine history channel).2

Reach-IsQueue_example :
    IsQueue (dma_do_tasklet (watched machine) (issue_pending (watched machine) channel))
Reach-IsQueue_example =
    Reach-IsQueue (watched machine)
      (next (next here (issues channel)) (completes (issue_pending (watched machine) channel)))
      channel-IsQueue

xfer_walks_example :
    let c' = xfer_ld_queue (watched machine) channel in
    (c'.ld_running ≡ first_desc ∷ last_desc ∷ [])
    × (c'.ld_pending ≡ [])
    × (walk (length c'.ld_running) c'.ld_running c'.env.at_cdar ≡ c'.ld_running)
xfer_walks_example =
    xfer_walks machine channel first_desc (last_desc ∷ []) refl refl channel-IsQueue (omega arith)

prep_memcpy_lem_example :
    (o : Option (List Desc)) × (w' : Watched ℕ) × (prep_memcpy
        (watched machine)
        (some 0x10)
        8192
        4096
        70000000
        3
        start_state
      ≡ some (o, w'))
    × Copied machine start_state.inner 0x10 3 8192 4096 70000000 start_state.pool o w'.pool
prep_memcpy_lem_example =
    prep_memcpy_lem machine 0x10 3 8192 4096 70000000 start_state (omega arith) (omega arith)
      (omega arith)

-- A board whose start bit reads 0, and a wait that runs out of time.
abbrev board : Board (Watched ℕ)
board = record {
  reg_in = λ r e. (1, e);
  reg_out = λ r v e. e;
  virt_to_phys = λ a. a;
  map_single = λ a n e. (a, e);
  wait = λ c. (5, c);
}

abbrev request : Request
request = record { destid = 3; loal_addr = 4096; rio_addr = 0x80000000; bytecnt = 100 }

transfers_end_example :
    Ends (watched machine) board (nread (watched machine) board request channel)
    × Ends (watched machine) board (nwrite (watched machine) board request channel)
transfers_end_example = transfers_end (watched machine) board request channel

-- A copy of 100 bytes on the idle channel.
abbrev empty_channel : Chan (Watched ℕ)
empty_channel = record channel { ld_pending = [] }

abbrev copy_desc : Desc
copy_desc = record {
  src_addr = 0x0005000000001000;
  dst_addr = 0x0005000000002000;
  next_ln_addr = 1;
  count = 100;
  phys = 32;
  cookie = negsuc 15;
  flags = 3;
  callback = none;
}

abbrev copy_state : Watched ℕ
copy_state = record { inner = 1; pool = record { allocated = 32 ∷ []; freed = [] }; at_cdar = 0 }

copy_made :
    prep_memcpy (watched machine) (some 0x10) 8192 4096 100 3 start_state
    ≡ some (some (copy_desc ∷ []), copy_state)
unfolding prep_memcpy memcpy_loop piece finish link_tail set_desc_src set_desc_dst set_ld_eol
    watched
copy_made = refl

empty_channel-IsQueue : IsQueue empty_channel
empty_channel-IsQueue = record { rests = λ h. refl; runs_chain = tt; pends_chain = tt }

copy_runs_example :
    let c' =
      issue_pending
        (watched machine)
        (tx_submit (watched machine) copy_desc [] (record empty_channel { env = copy_state })).1 in
    (c'.ld_pending ≡ [])
    × (walk (length c'.ld_running) c'.ld_running c'.env.at_cdar ≡ c'.ld_running)
    × Covers 8192 4096 100 (moves 0x10 c'.ld_running)
copy_runs_example =
    copy_runs machine empty_channel 8192 4096 100 3 copy_desc [] copy_state refl refl
      empty_channel-IsQueue (omega arith) (omega arith) (omega arith) copy_made (omega arith)
