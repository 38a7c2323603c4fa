-- ===== src/Dma/Queue.antt =====
-- The two queues of a channel in dma/fsldma.c: submission, start, completion, and the ways to empty them.
-- The caller's side of a list of descriptors: `ld_pending` and `ld_running` are lists in the order of the
-- links, and a transaction is its first descriptor and the others of its `tx_list`. What runs under the
-- channel's lock is one step. A callback reaches the platform only, not the channel.
use powerpc_i2c_temp.Prelude.{
  ℕ, ◌*◌, ltb, bit_and, bit_or, if◌then◌else◌, not, Bool, true, false, Option, none, some, List, [],
  ◌∷◌, ◌++◌,
}
use powerpc_i2c_temp.Prelude.Int.{ℤ, pos, negsuc}
use powerpc_i2c_temp.Prelude.Word.{◌<<<◌}
use powerpc_i2c_temp.Dma.Kernel.{cdar, Desc, Unmap, unmap_single, unmap_page, Platform, Chan}
use powerpc_i2c_temp.Dma.Bits.{mr_cs}
use powerpc_i2c_temp.Dma.Hardware.{
  clear, has, is_85xx, set_desc_next, get_desc_src, get_desc_dst, set_cdar, dma_start, dma_halt,
  update_mode, toggle_ext_start,
}

abbrev pub enomem : ℤ
enomem = negsuc 11

abbrev pub enxio : ℤ
enxio = negsuc 5

abbrev pub einval : ℤ
einval = negsuc 21

-- The flags of a transaction, of the kernel's DMA engine.
abbrev pub ctrl_ack : ℕ
ctrl_ack = 0x02

abbrev pub skip_src_unmap : ℕ
skip_src_unmap = 0x04

abbrev pub skip_dest_unmap : ℕ
skip_dest_unmap = 0x08

abbrev pub src_unmap_single : ℕ
src_unmap_single = 0x10

abbrev pub dest_unmap_single : ℕ
dest_unmap_single = 0x20

-- `set_desc_next` on the last descriptor of a list.
unfoldable pub link_tail : ℕ → ℕ → List Desc → List Desc
link_tail feature next [] = []
link_tail feature next (d ∷ []) = set_desc_next feature next d ∷ []
link_tail feature next (d ∷ e ∷ ds) = d ∷ link_tail feature next (e ∷ ds)

-- `struct dma_slave_config`, as far as it is read, and the commands of `device_control`.
pub record SlaveConfig : Type 0 where
  mem_to_dev : Bool
  dst_addr_width : ℕ
  dst_maxburst : ℕ
  src_addr_width : ℕ
  src_maxburst : ℕ

pub data Ctrl : Type 0 where
  terminate_all : Ctrl
  slave_config : SlaveConfig → Ctrl
  external_start : Bool → Ctrl
  other : Ctrl

module _ {E : Type 0} (k : Platform E) where
  unfoldable pub append_ld_queue : ℕ → List Desc → Chan E → Chan E
  append_ld_queue phys tx_list c = record c {
    ld_pending = link_tail c.feature phys c.ld_pending ++ tx_list;
  }

  -- Each descriptor gets the next cookie; the result names the last one.
  unfoldable pub assign_cookies : Desc → List Desc → E → List Desc × ℤ × E
  assign_cookies d [] e = let (n, e') = k.cookie_assign e in ((record d { cookie = n }) ∷ [], n, e')
  assign_cookies d (child ∷ ds) e =
      let (n, e') = k.cookie_assign e in
      let (ds', last, e'') = assign_cookies child ds e' in
      ((record d { cookie = n }) ∷ ds', last, e'')

  unfoldable pub tx_submit : Desc → List Desc → Chan E → ℤ × Chan E
  tx_submit d ds c =
      let (tx_list, cookie, e') = assign_cookies d ds c.env in
      (cookie, append_ld_queue d.phys tx_list (record c { env = e' }))

  unfoldable pub free_desc_list : List Desc → E → E
  free_desc_list [] e = e
  free_desc_list (d ∷ ds) e = free_desc_list ds (k.pool_free d.phys e)

  -- From the tail of the list to its head.
  unfoldable pub free_desc_list_reverse : List Desc → E → E
  free_desc_list_reverse [] e = e
  free_desc_list_reverse (d ∷ ds) e = k.pool_free d.phys (free_desc_list_reverse ds e)

  unfoldable pub alloc_chan_resources : Chan E → ℤ × Chan E
  alloc_chan_resources c =
      let (created, e') = k.pool_create c.env in
      if c.desc_pool
      then (pos 1, c)
      else (if created
          then (pos 1, record c { desc_pool = true; env = e' })
          else (enomem, record c { env = e' }))

  unfoldable pub free_chan_resources : Chan E → Chan E
  free_chan_resources c =
      let e' = free_desc_list c.ld_running (free_desc_list c.ld_pending c.env) in
      record c { ld_pending = []; ld_running = []; desc_pool = false; env = k.pool_destroy e' }

  -- What programs and starts the controller at a chain.
  unfoldable pub start_chain : ℕ → ℕ → E → E
  start_chain feature phys e =
      let cleared = if is_85xx feature then update_mode k (λ mode. clear mode mr_cs) e else e in
      dma_start k feature (k.dma_in cdar (set_cdar k phys cleared)).1

  -- On the list of pending descriptors, as a pattern.
  unfoldable pub xfer_pending : List Desc → Chan E → Chan E
  xfer_pending [] c = c
  xfer_pending (d ∷ ds) c = if not c.idle then c else record c {
    ld_pending = [];
    ld_running = c.ld_running ++ c.ld_pending;
    env = start_chain c.feature d.phys c.env;
    idle = false;
  }

  unfoldable pub xfer_ld_queue : Chan E → Chan E
  xfer_ld_queue c = xfer_pending c.ld_pending c

  unfoldable pub issue_pending : Chan E → Chan E
  issue_pending c = xfer_ld_queue c

  unfoldable pub tx_status : ℤ → Chan E → Bool
  tx_status cookie c = k.status_success cookie c.env

  -- One of the two buffers, by the two flags that speak of it.
  unfoldable pub unmap_buffer : (Unmap → E → E) → Bool → Bool → ℕ → ℕ → E → E
  unmap_buffer unmap skip single addr len e =
      if skip then e else unmap (if single then unmap_single addr len else unmap_page addr len) e

  unfoldable pub cleanup_descriptor : ℕ → Desc → E → E
  cleanup_descriptor feature d e =
      let e1 : E = elim d.callback [ none ↦ e | some param ↦ k.run_callback param e ] in
      let e2 = k.run_dependencies d.phys e1 in
      let e3 =
        unmap_buffer k.unmap_dst (has d.flags skip_dest_unmap) (has d.flags dest_unmap_single)
          (get_desc_dst feature d) d.count e2 in
      let e4 =
        unmap_buffer k.unmap_src (has d.flags skip_src_unmap) (has d.flags src_unmap_single)
          (get_desc_src feature d) d.count e3 in
      k.pool_free d.phys e4

  unfoldable pub cleanup_all : ℕ → List Desc → E → E
  cleanup_all feature [] e = e
  cleanup_all feature (d ∷ ds) e = cleanup_all feature ds (cleanup_descriptor feature d e)

  -- The cookie of the last descriptor of the list, if there is one.
  unfoldable pub complete_last : List Desc → E → E
  complete_last [] e = e
  complete_last (d ∷ []) e = k.cookie_complete d.cookie e
  complete_last (d ∷ d' ∷ ds) e = complete_last (d' ∷ ds) e

  unfoldable pub dma_do_tasklet : Chan E → Chan E
  dma_do_tasklet c =
      let e = complete_last c.ld_running c.env in
      let c' = xfer_ld_queue (record c { ld_running = []; idle = true; env = e }) in
      record c' { env = cleanup_all c.feature c.ld_running c'.env }

  -- `none` is the `BUG_ON`.
  unfoldable pub set_request_count : ℕ → Chan E → Option (Chan E)
  set_request_count size c =
      if ltb 1024 size
      then none
      else some (record c {
        env = update_mode k (λ mode. bit_or mode (bit_and (k.ilog2 size <<< 24) 0x0f000000)) c.env;
      })

  unfoldable pub terminate : Chan E → Chan E
  terminate c =
      let e = (dma_halt k c.feature c.env).1 in
      record c {
        ld_pending = [];
        ld_running = [];
        idle = true;
        env = free_desc_list c.ld_running (free_desc_list c.ld_pending e);
      }

  abbrev pub burst_size : SlaveConfig → ℕ
  burst_size config =
      if config.mem_to_dev
      then config.dst_addr_width * config.dst_maxburst
      else config.src_addr_width * config.src_maxburst

  unfoldable pub device_control : Ctrl → Option (Chan E) → Option (ℤ × Option (Chan E))
  device_control command none = some (einval, none)
  device_control terminate_all (some c) = some (pos 0, some (terminate c))
  device_control (slave_config config) (some c) =
      let done = set_request_count (burst_size config) c in
      if not c.set_request_count
      then some (enxio, some c)
      else elim done [ none ↦ none | some c' ↦ some (pos 0, some c') ]
  device_control (external_start enable) (some c) =
      if not c.toggle_ext_start
      then some (enxio, some c)
      else some (pos 0, some (record c { feature = toggle_ext_start enable c.feature }))
  device_control other (some c) = some (enxio, some c)
