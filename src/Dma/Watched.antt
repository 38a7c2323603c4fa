-- ===== src/Dma/Watched.antt =====
-- A platform that keeps a record beside its state: the addresses that the descriptor pool gave out and took
-- back, each in order, and what was last written to the CDAR. What the functions of dma/fsldma.c do to
-- them is read off there.
use mathlib.Core.List.{append_assoc, append-nil, reverse, reverse-cons}
use powerpc_i2c_temp.Prelude.{
  ℕ, bit_or, zero, suc, ◌≡◌, sym, refl, ap, ◌∙◌, arith, Bool, Option, none, some, List, [], ◌∷◌,
  ◌++◌, if◌then◌else◌,
}
use powerpc_i2c_temp.Dma.Kernel.{Reg, mr, sr, cdar, sar, dar, bcr, Desc, Platform}
use powerpc_i2c_temp.Dma.Bits.{mr_cs, snen}
use powerpc_i2c_temp.Dma.Hardware.{
  clear, is_85xx, update_mode, dma_start, dma_is_idle, wait_idle, dma_halt,
}
use powerpc_i2c_temp.Dma.Queue.{
  free_desc_list, free_desc_list_reverse, start_chain, unmap_buffer, cleanup_descriptor,
  cleanup_all, complete_last, assign_cookies,
}

pub record Pool : Type 0 where
  pub allocated : List ℕ
  pub freed : List ℕ

pub record Watched (E : Type 0) : Type 0 where
  pub inner : E
  pub pool : Pool
  pub at_cdar : ℕ

abbrev pub wrote : Reg → ℕ → ℕ → ℕ
wrote mr v old = old
wrote sr v old = old
wrote cdar v old = v
wrote sar v old = old
wrote dar v old = old
wrote bcr v old = old

abbrev pub listed : Option ℕ → List ℕ
listed none = []
listed (some p) = p ∷ []

abbrev pub gave : Option ℕ → Pool → Pool
gave p l = record l { allocated = l.allocated ++ listed p }

abbrev pub took : List ℕ → Pool → Pool
took ps l = record l { freed = l.freed ++ ps }

abbrev pub phys_of : List Desc → List ℕ
phys_of [] = []
phys_of (d ∷ ds) = d.phys ∷ phys_of ds

abbrev pub on_inner : {E : Type 0} → (E → E) → Watched E → Watched E
on_inner f w = record w { inner = f w.inner }

unfoldable pub watched : {E : Type 0} → Platform E → Platform (Watched E)
watched k = record {
  dma_in = λ r w. ((k.dma_in r w.inner).0, on_inner (λ e. (k.dma_in r e).1) w);
  dma_out = λ r v w. record w { inner = k.dma_out r v w.inner; at_cdar = wrote r v w.at_cdar };
  udelay = λ n. on_inner (k.udelay n);
  pool_create = λ w. ((k.pool_create w.inner).0, on_inner (λ e. (k.pool_create e).1) w);
  pool_destroy = on_inner k.pool_destroy;
  pool_alloc = λ w. (
    (k.pool_alloc w.inner).0,
    record w { inner = (k.pool_alloc w.inner).1; pool = gave (k.pool_alloc w.inner).0 w.pool },
  );
  pool_free = λ p w. record w { inner = k.pool_free p w.inner; pool = took (p ∷ []) w.pool };
  cookie_assign = λ w. ((k.cookie_assign w.inner).0, on_inner (λ e. (k.cookie_assign e).1) w);
  cookie_complete = λ n. on_inner (k.cookie_complete n);
  status_success = λ n w. k.status_success n w.inner;
  run_callback = λ p. on_inner (k.run_callback p);
  run_dependencies = λ p. on_inner (k.run_dependencies p);
  unmap_dst = λ u. on_inner (k.unmap_dst u);
  unmap_src = λ u. on_inner (k.unmap_src u);
  tasklet_schedule = on_inner k.tasklet_schedule;
  ilog2 = k.ilog2;
}

pub took-append : (xs ys : List ℕ) (l : Pool) → took ys (took xs l) ≡ took (xs ++ ys) l
took-append xs ys l = ap (λ fs. record l { freed = fs }) (append_assoc l.freed xs ys)

took-nil : (l : Pool) → took [] l ≡ l
took-nil l = ap (λ fs. record l { freed = fs }) (append-nil l.freed)

module _ {E : Type 0} (k : Platform E) where
  dma_start-pool : (feature : ℕ) (w : Watched E) → (dma_start (watched k) feature w).pool ≡ w.pool
  unfolding dma_start watched
  dma_start-pool feature w = ground arith

  cleared-pool :
      (b : Bool) (f : ℕ → ℕ) (w : Watched E)
      → (if b then update_mode (watched k) f w else w).pool ≡ w.pool
  unfolding watched
  cleared-pool b f w = ground arith

  pub start_chain-pool :
      (feature phys : ℕ) (w : Watched E) → (start_chain (watched k) feature phys w).pool ≡ w.pool
  unfolding start_chain watched
  start_chain-pool feature phys w =
      dma_start-pool feature _ ∙ cleared-pool (is_85xx feature) (λ mode. clear mode mr_cs) w

  dma_start-at_cdar :
      (feature : ℕ) (w : Watched E) → (dma_start (watched k) feature w).at_cdar ≡ w.at_cdar
  unfolding dma_start watched
  dma_start-at_cdar feature w = ground arith

  pub start_chain-at_cdar :
      (feature phys : ℕ) (w : Watched E)
      → (start_chain (watched k) feature phys w).at_cdar ≡ bit_or phys snen
  unfolding start_chain watched
  start_chain-at_cdar feature phys w = dma_start-at_cdar feature _

  wait_idle-pool : (left : ℕ) (w : Watched E) → (wait_idle (watched k) left w).1.pool ≡ w.pool
  unfolding wait_idle dma_is_idle watched
  wait_idle-pool zero w = refl
  wait_idle-pool (suc left) w =
      ground (arith, wait_idle-pool left (on_inner (λ e. k.udelay 10 (k.dma_in sr e).1) w))

  pub dma_halt-pool :
      (feature : ℕ) (w : Watched E) → (dma_halt (watched k) feature w).1.pool ≡ w.pool
  unfolding dma_halt watched
  dma_halt-pool feature w = wait_idle-pool 100 _ ∙ ground arith

  pub free_desc_list-pool :
      (ds : List Desc) (w : Watched E)
      → (free_desc_list (watched k) ds w).pool ≡ took (phys_of ds) w.pool
  unfolding free_desc_list watched
  free_desc_list-pool [] w = sym (took-nil w.pool)
  free_desc_list-pool (d ∷ ds) w =
      free_desc_list-pool ds _ ∙ took-append (d.phys ∷ []) (phys_of ds) w.pool

  pub free_desc_list_reverse-pool :
      (ds : List Desc) (w : Watched E)
      → (free_desc_list_reverse (watched k) ds w).pool ≡ took (reverse (phys_of ds)) w.pool
  unfolding free_desc_list_reverse watched
  free_desc_list_reverse-pool [] w = sym (took-nil w.pool)
  free_desc_list_reverse-pool (d ∷ ds) w =
      ap (took (d.phys ∷ [])) (free_desc_list_reverse-pool ds w)
      ∙ took-append (reverse (phys_of ds)) (d.phys ∷ []) w.pool
      ∙ ap (λ ps. took ps w.pool) (sym (reverse-cons d.phys (phys_of ds)))

  cleanup_descriptor-pool :
      (feature : ℕ) (d : Desc) (w : Watched E)
      → (cleanup_descriptor (watched k) feature d w).pool ≡ took (d.phys ∷ []) w.pool
  unfolding cleanup_descriptor unmap_buffer watched
  cleanup_descriptor-pool feature d w = ground arith

  pub cleanup_all-pool :
      (feature : ℕ) (ds : List Desc) (w : Watched E)
      → (cleanup_all (watched k) feature ds w).pool ≡ took (phys_of ds) w.pool
  unfolding cleanup_all
  cleanup_all-pool feature [] w = sym (took-nil w.pool)
  cleanup_all-pool feature (d ∷ ds) w =
      cleanup_all-pool feature ds _
      ∙ ap (took (phys_of ds)) (cleanup_descriptor-pool feature d w)
      ∙ took-append (d.phys ∷ []) (phys_of ds) w.pool

  pub complete_last-pool :
      (ds : List Desc) (w : Watched E) → (complete_last (watched k) ds w).pool ≡ w.pool
  unfolding complete_last watched
  complete_last-pool [] w = refl
  complete_last-pool (d ∷ []) w = refl
  complete_last-pool (d ∷ d' ∷ ds) w = complete_last-pool (d' ∷ ds) w

  pub assign_cookies-pool :
      (d : Desc) (ds : List Desc) (w : Watched E)
      → (assign_cookies (watched k) d ds w).2.pool ≡ w.pool
  unfolding assign_cookies watched
  assign_cookies-pool d [] w = refl
  assign_cookies-pool d (d' ∷ ds) w = assign_cookies-pool d' ds _
