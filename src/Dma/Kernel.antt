-- ===== src/Dma/Kernel.antt =====
-- What dma/fsldma.c works on: the registers of a channel, the descriptors in memory, and the kernel's side,
-- a parameter here.
use powerpc_i2c_temp.Prelude.{ℕ, Bool, Option, List}
use powerpc_i2c_temp.Prelude.Int.{ℤ}

-- `struct fsldma_chan_regs`, as far as the driver uses it.
pub data Reg : Type 0 where
  mr sr cdar sar dar bcr : Reg

-- `struct fsl_desc_sw`: the four words that the controller reads, as the processor reads them, and the part of
-- `struct dma_async_tx_descriptor` that the driver uses. A callback is known by its parameter.
pub record Desc : Type 0 where
  pub src_addr : ℕ
  pub dst_addr : ℕ
  pub next_ln_addr : ℕ
  pub count : ℕ
  pub phys : ℕ
  pub cookie : ℤ
  pub flags : ℕ
  pub callback : Option ℕ

-- A buffer that is unmapped: by `dma_unmap_single` or by `dma_unmap_page`.
pub data Unmap : Type 0 where
  unmap_single unmap_page : (addr len : ℕ) → Unmap

-- The kernel and the hardware, over their state `E`. A cookie is assigned, completed and looked up by the
-- DMA engine framework, `ilog2` is the kernel's logarithm; `status_success` tells whether `dma_cookie_status` answers `DMA_SUCCESS`.
pub record Platform (E : Type 0) : Type 0 where
  pub dma_in : Reg → E → ℕ × E
  pub dma_out : Reg → ℕ → E → E
  pub udelay : ℕ → E → E
  pub pool_create : E → Bool × E
  pub pool_destroy : E → E
  pub pool_alloc : E → Option ℕ × E
  pub pool_free : ℕ → E → E
  pub cookie_assign : E → ℤ × E
  pub cookie_complete : ℤ → E → E
  pub status_success : ℤ → E → Bool
  pub run_callback : ℕ → E → E
  pub run_dependencies : ℕ → E → E
  pub unmap_dst : Unmap → E → E
  pub unmap_src : Unmap → E → E
  pub tasklet_schedule : E → E
  pub ilog2 : ℕ → ℕ

-- `struct fsldma_chan`: `desc_pool` tells whether there is a pool, and each of the last two whether the
-- channel has that function.
pub record Chan (E : Type 0) : Type 0 where
  pub feature : ℕ
  pub idle : Bool
  pub desc_pool : Bool
  pub ld_pending : List Desc
  pub ld_running : List Desc
  pub set_request_count : Bool
  pub toggle_ext_start : Bool
  pub env : E
