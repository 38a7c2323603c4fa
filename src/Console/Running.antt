-- ===== src/Console/Running.antt =====
-- What the device of rapidio/rionet.c does with a command and its arguments.
use powerpc_i2c_temp.Prelude.{
  ℕ, suc, ◌-◌, ◌%◌, ◌^◌, ◌<◌, ltb, ◌≡◌, refl, ap, ◌∙◌, arith, bit_and, if◌then◌else◌, not, true,
  false, none, some, List, [], ◌∷◌, ◌++◌, length,
}
use powerpc_i2c_temp.Rmu.Entries.{if-eq_false}
use powerpc_i2c_temp.Str2hex.{str2hex}
use powerpc_i2c_temp.Console.Text.{codes, format_space}
use powerpc_i2c_temp.Console.Squeeze.{c_string-plain}
use powerpc_i2c_temp.Console.Commands.{
  Call, target_value, target_type, rioinb, riooutb, send_doorbell, out_bound_send_msg, dma_nread,
  dma_nwrite, Reply, nothing, call, Console, set_inb_target, test_doorbell, test_riooutb,
  test_rioinb, test_send_msg, test_get_msg, test_transfer, commands, run_command, run_text, cleared,
  faulted, written, wan_write,
}
use powerpc_i2c_temp.Console.Parsing.{
  is_word, words, line, line-plain, format_space-line, with_word_to, checked_last_lem,
  last_word_lem, with_last_word,
}

-- The commands that take arguments, each with the texts of its arguments, without `getmsg`, which takes the mailbox from
-- its first argument again and not from the second.
pub data Command : Type 0 where
  setinb : (local_addr srio_addr size window : List ℕ) → Command
  setoutb : (local_addr srio_addr size dst_id window : List ℕ) → Command
  doorbell : (destid info : List ℕ) → Command
  settarget : (value : List ℕ) → Command
  sendmsg : (destid mbox buffer size : List ℕ) → Command
  rio_nread rio_write : (port destid rio_addr count : List ℕ) → Command

abbrev pub name : Command → List ℕ
name (setinb a b c d) = codes "setinb"
name (setoutb a b c d e) = codes "setoutb"
name (doorbell a b) = codes "doorbell"
name (settarget a) = codes "settarget"
name (sendmsg a b c d) = codes "sendmsg"
name (rio_nread a b c d) = codes "rioNread"
name (rio_write a b c d) = codes "rioWrite"

abbrev pub arguments : Command → List (List ℕ)
arguments (setinb a b c d) = a ∷ b ∷ c ∷ d ∷ []
arguments (setoutb a b c d e) = a ∷ b ∷ c ∷ d ∷ e ∷ []
arguments (doorbell a b) = a ∷ b ∷ []
arguments (settarget a) = a ∷ []
arguments (sendmsg a b c d) = a ∷ b ∷ c ∷ d ∷ []
arguments (rio_nread a b c d) = a ∷ b ∷ c ∷ d ∷ []
arguments (rio_write a b c d) = a ∷ b ∷ c ∷ d ∷ []

-- A transfer needs memory for what it reads or writes.
abbrev pub transfer_reply : Console → (ℕ → ℕ → ℕ → ℕ → Call) → (destid rio_addr count : ℕ) → Reply
transfer_reply k transfer destid rio_addr count = elim (k.kmalloc count) [
  | none ↦ nothing
  | some local_addr ↦ call (transfer (bit_and destid 0xff) local_addr rio_addr count)
]

-- The call that a command stands for.
abbrev pub meant : Console → Command → Reply
meant k (setinb a b c d) = call (rioinb (str2hex a) (str2hex b) (str2hex c) (str2hex d))
meant k (setoutb a b c d e) =
    call (riooutb (str2hex a) (str2hex b) (str2hex c) (str2hex d) (str2hex e))
meant k (doorbell a b) = call (send_doorbell (str2hex a % 2 ^ 16) (str2hex b % 2 ^ 16))
meant k (settarget a) =
    if ltb 1 (str2hex a) then call (target_value (str2hex a)) else call (target_type (str2hex a))
meant k (sendmsg a b c d) =
    call (out_bound_send_msg (str2hex a % 2 ^ 16) (str2hex b) (str2hex c) (str2hex d))
meant k (rio_nread a b c d) = transfer_reply k dma_nread (str2hex b) (str2hex c) (str2hex d)
meant k (rio_write a b c d) = transfer_reply k dma_nwrite (str2hex b) (str2hex c) (str2hex d)

-- The arguments of a command as its function gets them.
abbrev arguments_line : List (List ℕ) → List ℕ
arguments_line [] = []
arguments_line (w ∷ ws) = line w ws

handler : Console → Command → List ℕ → Reply
handler k (setinb a b c d) = test_rioinb
handler k (setoutb a b c d e) = test_riooutb
handler k (doorbell a b) = test_doorbell
handler k (settarget a) = set_inb_target
handler k (sendmsg a b c d) = test_send_msg
handler k (rio_nread a b c d) = test_transfer k dma_nread
handler k (rio_write a b c d) = test_transfer k dma_nwrite

module _ (k : Console) where
  handled :
      (c : Command)
      → words (arguments c) ≡ true
      → handler k c (arguments_line (arguments c)) ≡ meant k c
  unfolding handler set_inb_target test_doorbell test_riooutb test_rioinb test_send_msg test_get_msg
      test_transfer
  handled (setinb a b c d) h = with_word_to a (line b (c ∷ d ∷ [])) _ (ground arith) (
      with_word_to b (line c (d ∷ [])) _ (ground arith)
        (with_word_to c (line d ([])) _ (ground arith) (checked_last_lem d _)))
  handled (setoutb a b c d e) h = with_word_to a (line b (c ∷ d ∷ e ∷ [])) _ (ground arith) (
      with_word_to b (line c (d ∷ e ∷ [])) _ (ground arith) (
        with_word_to c (line d (e ∷ [])) _ (ground arith)
          (with_word_to d (line e ([])) _ (ground arith) (checked_last_lem e _))))
  handled (doorbell a b) h = with_word_to a (line b ([])) _ (ground arith) (last_word_lem b _)
  handled (settarget a) h = last_word_lem a _
  handled (sendmsg a b c d) h = with_word_to a (line b (c ∷ d ∷ [])) _ (ground arith) (
      with_word_to b (line c (d ∷ [])) _ (ground arith)
        (with_word_to c (line d ([])) _ (ground arith) (checked_last_lem d _)))
  handled (rio_nread a b c d) h = with_word_to a (line b (c ∷ d ∷ [])) _ (ground arith) (
      with_word_to b (line c (d ∷ [])) _ (ground arith)
        (with_word_to c (line d ([])) _ (ground arith) (last_word_lem d _)))
  handled (rio_write a b c d) h = with_word_to a (line b (c ∷ d ∷ [])) _ (ground arith) (
      with_word_to b (line c (d ∷ [])) _ (ground arith)
        (with_word_to c (line d ([])) _ (ground arith) (last_word_lem d _)))

  found :
      (c : Command) (z : List ℕ)
      → words (arguments c) ≡ true
      → run_command (commands k) (line (name c) (arguments c) ++ 0 ∷ z)
        ≡ handler k c (arguments_line (arguments c))
  unfolding handler run_command
  found (setinb a b c d) z h =
      rw (c_string-plain (line a (b ∷ c ∷ d ∷ [])) z (line-plain a (b ∷ c ∷ d ∷ []) h)) refl
  found (setoutb a b c d e) z h =
      rw (c_string-plain (line a (b ∷ c ∷ d ∷ e ∷ [])) z (line-plain a (b ∷ c ∷ d ∷ e ∷ []) h)) refl
  found (doorbell a b) z h = rw (c_string-plain (line a (b ∷ [])) z (line-plain a (b ∷ []) h)) refl
  found (settarget a) z h = rw (c_string-plain (line a ([])) z (line-plain a ([]) h)) refl
  found (sendmsg a b c d) z h =
      rw (c_string-plain (line a (b ∷ c ∷ d ∷ [])) z (line-plain a (b ∷ c ∷ d ∷ []) h)) refl
  found (rio_nread a b c d) z h =
      rw (c_string-plain (line a (b ∷ c ∷ d ∷ [])) z (line-plain a (b ∷ c ∷ d ∷ []) h)) refl
  found (rio_write a b c d) z h =
      rw (c_string-plain (line a (b ∷ c ∷ d ∷ [])) z (line-plain a (b ∷ c ∷ d ∷ []) h)) refl

cleared_some : (n : ℕ) → n < 100 → cleared (100 - n) ≡ 0 ∷ cleared (99 - n)
cleared_some n h = let e : 100 - n ≡ suc (99 - n) = omega arith in ap cleared e

named_words : (c : Command) → words (arguments c) ≡ true → words (name c ∷ arguments c) ≡ true
named_words (setinb a b c d) h = h
named_words (setoutb a b c d e) h = h
named_words (doorbell a b) h = h
named_words (settarget a) h = h
named_words (sendmsg a b c d) h = h
named_words (rio_nread a b c d) h = h
named_words (rio_write a b c d) h = h

module _ (k : Console) where
  -- A text of less than 100 bytes that is copied, and that `format_space` leaves as it is.
  reaches :
      (w : List ℕ) (ws : List (List ℕ))
      → k.copied ≡ true
      → words (w ∷ ws) ≡ true
      → length (line w ws) < 100
      → (z : List ℕ) × (wan_write k (line w ws)
          ≡ written (length (line w ws)) (run_command (commands k) (line w ws ++ 0 ∷ z)))
  unfolding wan_write run_text
  reaches w ws c h l =
      let text = line w ws in
      let (z, e) = format_space-line w ws (cleared (99 - length text)) h in
      let fits : ltb 100 (length text) ≡ false = ground arith in
      let formatted =
        ap (λ (b : List ℕ). format_space (text ++ b)) (cleared_some (length text) l) ∙ e in
      (
        z,
        if-eq_false _ _ _ fits
            ∙ if-eq_false _ _ _ (ap not c)
            ∙ ap (run_text k (length text)) formatted,
      )

  -- A command with arguments that are words, one of setinb, setoutb, doorbell, settarget, sendmsg, rioNread and rioWrite,
  -- of less than 100 bytes in all and copied from the process: the device returns
  -- the number of bytes that it was given, and it makes the call that the command stands for, on the numbers that the
  -- arguments stand for; a transfer for which there is no memory is not made.
  pub wan_write-Command :
      (c : Command)
      → k.copied ≡ true
      → words (arguments c) ≡ true
      → length (line (name c) (arguments c)) < 100
      → wan_write k (line (name c) (arguments c))
        ≡ written (length (line (name c) (arguments c))) (meant k c)
  wan_write-Command c t h l =
      let (z, e) = reaches (name c) (arguments c) t (named_words c h) l in
      e ∙ ap (written (length (line (name c) (arguments c)))) (found k c z h ∙ handled k c h)

  -- A doorbell command with one argument only, a word, of less than 100 bytes in all and copied from the process, makes the
  -- kernel go through a null pointer.
  pub wan_write_one_argument :
      (a : List ℕ)
      → k.copied ≡ true
      → is_word a ≡ true
      → length (line (codes "doorbell") (a ∷ [])) < 100
      → wan_write k (line (codes "doorbell") (a ∷ [])) ≡ faulted
  unfolding run_command test_doorbell
  wan_write_one_argument a t h l =
      let (z, e) = reaches (codes "doorbell") (a ∷ []) t (ground arith) l in
      let read : run_command (commands k) (line (codes "doorbell") (a ∷ []) ++ 0 ∷ z)
          ≡ test_doorbell (line a []) =
        rw (c_string-plain (line a []) z (line-plain a [] (ground arith))) refl in
      e ∙ ap (written (length (line (codes "doorbell") (a ∷ [])))) (read ∙ with_last_word a _ h)
