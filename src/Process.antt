-- ===== src/Process.antt =====
-- process_runtime/capture.py: what is kept of the output of a child process. A byte is a number.
pub mod Holds
pub mod Exact
pub mod Examples
use Prim.Native.Nat.{min}
use imece_ide.Base.{
  ℕ, suc, ◌+◌, ◌-◌, ◌/◌, Bool, true, false, leb, ltb, if◌then◌else◌, List, [], ◌∷◌, ◌++◌, length,
  take, drop, Result, ok, ◌>>◌, guard, value_error,
}

pub record BoundedCapture : Type 0 where
  pub limit : ℕ
  pub head_limit : ℕ
  pub tail_limit : ℕ
  pub head : List ℕ
  pub tail : List ℕ
  pub total : ℕ
  pub has_error : Bool

-- What a read of the stream gives: bytes, none at the end, or an exception.
pub data Read : Type 0 where
  chunk : List ℕ → Read
  failure : Read

-- __init__
unfoldable pub new_capture : ℕ → Result BoundedCapture
new_capture limit = do
  guard (ltb 0 limit) value_error
  ok (record {
    limit = limit;
    head_limit = limit / 2;
    tail_limit = limit - limit / 2;
    head = [];
    tail = [];
    total = 0;
    has_error = false;
  })

-- The last bytes, as many as the limit, which is not 0: del tail[:-limit] of a longer tail
unfoldable pub keep_last : ℕ → List ℕ → List ℕ
keep_last limit bytes =
    if ltb limit (length bytes) then drop (length bytes - limit) bytes else bytes

unfoldable pub extend_tail : List ℕ → BoundedCapture → BoundedCapture
extend_tail [] c = c
extend_tail (b ∷ bs) c = record c { tail = keep_last c.tail_limit (c.tail ++ b ∷ bs) }

-- The bytes of one read.
unfoldable pub feed : List ℕ → BoundedCapture → BoundedCapture
feed bytes c =
    let counted = record c { total = c.total + length bytes } in
    let room = min (c.head_limit - length c.head) (length bytes) in
    if ltb (length c.head) c.head_limit
    then extend_tail (drop room bytes) (record counted { head = c.head ++ take room bytes })
    else extend_tail bytes counted

-- consume
unfoldable pub consume : List Read → BoundedCapture → BoundedCapture
consume [] c = c
consume (failure ∷ rest) c = record c { has_error = true }
consume (chunk [] ∷ rest) c = c
consume (chunk (b ∷ bs) ∷ rest) c = consume rest (feed (b ∷ bs) c)

unfoldable pub is_truncated : BoundedCapture → Bool
is_truncated c = ltb c.limit c.total

-- text, before it is decoded: all bytes, or the first ones, the number of those omitted, and the last
pub data Shown : Type 0 where
  whole : List ℕ → Shown
  cut : List ℕ → ℕ → List ℕ → Shown

unfoldable pub text : BoundedCapture → Shown
text c =
    if is_truncated c
    then cut c.head (c.total - length c.head - length c.tail) c.tail
    else whole (c.head ++ c.tail)
