-- ===== src/Console/Commands.antt =====
-- The commands of the console: `wan_write` of rapidio/rionet.c, and the functions of rapidio/fsl_rio.c that read their
-- arguments. Each ends with a call, with nothing, or with an access through a null pointer.
-- `str2hex` is the code of fun_test/str2hex.c, which both files repeat.
use powerpc_i2c_temp.Prelude.{
  ℕ, zero, suc, ◌-◌, ◌%◌, ◌^◌, ltb, ◌==◌, bit_and, if◌then◌else◌, not, ◌&&◌, Bool, true, false,
  Option, none, some, List, [], ◌∷◌, ◌++◌, length, drop,
}
use powerpc_i2c_temp.Prelude.Int.{ℤ, pos, negsuc}
use powerpc_i2c_temp.Str2hex.{str2hex}
use powerpc_i2c_temp.Console.Text.{codes, space, c_string, format_space}

-- The functions that a command calls, with their arguments.
pub data Call : Type 0 where
  test_mem test_disk disc_rio test_memory_map read_memory_map get_local_device_id : Call
  target_value target_type : (value : ℕ) → Call
  rioinb : (local_addr srio_addr size window : ℕ) → Call
  riooutb : (local_addr srio_addr size dst_id window : ℕ) → Call
  send_doorbell : (destid info : ℕ) → Call
  out_bound_send_msg : (destid mbox buffer size : ℕ) → Call
  in_bound_get_msg : (destid mbox : ℕ) → Call
  dma_nread dma_nwrite : (destid local_addr rio_addr count : ℕ) → Call
  display : (addr size : ℕ) → (remapped : Bool) → Call

pub data Reply : Type 0 where
  null_access nothing : Reply
  call : Call → Reply

-- What the kernel answers: whether the text was copied from the process, memory, and whether an address can be mapped.
pub record Console : Type 0 where
  pub copied : Bool
  pub kmalloc : ℕ → Option ℕ
  pub ioremap : (addr size : ℕ) → Bool

-- `strsep` with a space: the text before it, and after it if there is one.
unfoldable pub strsep : List ℕ → List ℕ × Option (List ℕ)
strsep [] = ([], none)
strsep (c ∷ r) = let (p, rest) = strsep r in if c == space then ([], some r) else (c ∷ p, rest)

-- `p=strsep(&str," "); x=str2hex(p)`.
unfoldable pub with_word : Option (List ℕ) → (ℕ → Option (List ℕ) → Reply) → Reply
with_word none f = null_access
with_word (some s) f = let (p, rest) = strsep s in f (str2hex p) rest

-- `str[len-1]='\0'`; before an empty text stands the byte that `strsep` has cleared, or the separator.
unfoldable pub without_last : List ℕ → List ℕ
without_last [] = []
without_last (c ∷ []) = []
without_last (c ∷ d ∷ s) = c ∷ without_last (d ∷ s)

-- The last argument, where the code looks whether there is one, and where it does not.
unfoldable pub checked_last : Option (List ℕ) → (ℕ → Reply) → Reply
checked_last none f = nothing
checked_last (some s) f = f (str2hex (without_last s))

unfoldable pub last_word : Option (List ℕ) → (ℕ → Reply) → Reply
last_word none f = null_access
last_word (some s) f = f (str2hex (without_last s))

unfoldable pub set_inb_target : List ℕ → Reply
set_inb_target s =
    last_word (some s)
      (λ value. if ltb 1 value then call (target_value value) else call (target_type value))

unfoldable pub test_doorbell : List ℕ → Reply
test_doorbell s =
    with_word (some s)
      (λ destid r. last_word r (λ info. call (send_doorbell (destid % 2 ^ 16) (info % 2 ^ 16))))

unfoldable pub test_riooutb : List ℕ → Reply
test_riooutb s = with_word (some s) (λ baddr r1. with_word r1 (λ taddr r2. with_word r2 (λ size r3.
    with_word r3
      (λ destid r4. checked_last r4 (λ window. call (riooutb baddr taddr size destid window))))))

unfoldable pub test_rioinb : List ℕ → Reply
test_rioinb s = with_word (some s) (λ baddr r1. with_word r1 (λ taddr r2.
    with_word r2 (λ size r3. checked_last r3 (λ window. call (rioinb baddr taddr size window)))))

-- `testOutBoundSendMsg` and `testInBoundGetMsg`. The second takes the mailbox from the first argument again.
unfoldable pub test_send_msg : List ℕ → Reply
test_send_msg s = with_word (some s) (λ destid r1. with_word r1 (λ mbox r2.
    with_word r2 (λ buffer r3.
      checked_last r3 (λ size. call (out_bound_send_msg (destid % 2 ^ 16) mbox buffer size)))))

unfoldable pub test_get_msg : List ℕ → Reply
test_get_msg s =
    with_word (some s)
      (λ destid r. checked_last r (λ ignored. call (in_bound_get_msg (destid % 2 ^ 16) destid)))

module _ (k : Console) where
  -- `test_nread` and `test_nwrite`, with the transfer that they make.
  unfoldable pub test_transfer : (ℕ → ℕ → ℕ → ℕ → Call) → List ℕ → Reply
  test_transfer transfer s = with_word (some s) (λ localport r1. with_word r1 (λ destid r2.
      with_word r2 (λ rioaddr r3. last_word r3 (λ bytecnt. elim (k.kmalloc bytecnt) [
        | none ↦ nothing
        | some localaddr ↦ call (transfer (bit_and destid 0xff) localaddr rioaddr bytecnt)
      ]))))

  -- `__do_dm`.
  unfoldable pub do_dm : List ℕ → Reply
  do_dm s = with_word (some s) (λ addr r1. with_word r1 (λ size r2. checked_last r2 (λ is_remap.
      if is_remap == 1
      then (if k.ioremap addr size then call (display addr size true) else nothing)
      else call (display addr size false))))

  -- The names in the order of the tests, where the arguments start, and what is done with them.
  abbrev pub commands : List (List ℕ × ℕ × (List ℕ → Reply))
  commands =
      (codes "meminfo", 0, λ s. call test_mem)
      ∷ (codes "diskinfo", 0, λ s. call test_disk)
      ∷ (codes "rapidio", 0, λ s. call disc_rio)
      ∷ (codes "setinb", 7, test_rioinb)
      ∷ (codes "setoutb", 8, test_riooutb)
      ∷ (codes "writemem", 0, λ s. call test_memory_map)
      ∷ (codes "readmem", 0, λ s. call read_memory_map)
      ∷ (codes "doorbell", 9, test_doorbell)
      ∷ (codes "settarget", 10, set_inb_target)
      ∷ (codes "sendmsg", 8, test_send_msg)
      ∷ (codes "getmsg", 7, test_get_msg)
      ∷ (codes "rioNread", 9, test_transfer dma_nread)
      ∷ (codes "rioWrite", 9, test_transfer dma_nwrite)
      ∷ (codes "dm", 3, do_dm)
      ∷ (codes "*", 3, do_dm)
      ∷ (codes "rioGetLocalDeviceId", 0, λ s. call get_local_device_id)
      ∷ []

-- `!memcmp(buffer, name, sizeof(name)-1)`.
abbrev pub is_prefix : List ℕ → List ℕ → Bool
is_prefix [] buffer = true
is_prefix (c ∷ name) [] = false
is_prefix (c ∷ name) (d ∷ buffer) = c == d && is_prefix name buffer

unfoldable pub run_command : List (List ℕ × ℕ × (List ℕ → Reply)) → List ℕ → Reply
run_command [] buffer = nothing
run_command ((name, start, f) ∷ rest) buffer =
    let other = run_command rest buffer in
    if is_prefix name buffer
    then elim (c_string (drop start buffer)) [ none ↦ null_access | some s ↦ f s ]
    else other

abbrev pub cleared : ℕ → List ℕ
cleared zero = []
cleared (suc n) = 0 ∷ cleared n

-- The kernel faults, or the number of bytes that is returned and the call that was made.
pub data Written : Type 0 where
  faulted : Written
  wrote : (count : ℕ) → (made : Option Call) → Written

abbrev pub written : ℕ → Reply → Written
written count null_access = faulted
written count nothing = wrote count none
written count (call c) = wrote count (some c)

-- With the text that `format_space` leaves.
unfoldable pub run_text : Console → (count : ℕ) → Option (List ℕ) → Written
run_text k count none = faulted
run_text k count (some buffer) = written count (run_command (commands k) buffer)

-- The array has 100 bytes, and `count` is not compared with them: more bytes go over its end.
unfoldable pub wan_write : Console → List ℕ → Written
wan_write k user =
    if ltb 100 (length user)
    then faulted
    else (if not k.copied
        then wrote 0 none
        else run_text k (length user) (format_space (user ++ cleared (100 - length user))))

-- `wan_read`: the first read gives 13 bytes of a cleared array of 20, of which 20 are copied, and the next ones nothing.
unfoldable pub wan_read : Console → (ppos : ℕ) → ℤ × ℕ
wan_read k ppos =
    if ltb 11 ppos then (pos 0, ppos) else (if k.copied then (pos 13, 13) else (negsuc 0, 13))
