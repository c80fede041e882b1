-- ===== src/Lightproc/State.antt =====
-- The state of a process, runtime/lightproc/src/state.rs: seven flags and a reference count.
pub mod Flags
pub mod Word
use fabaccess_server.Prelude.{
  ℕ, ◌+◌, ◌-◌, ◌*◌, ◌/◌, ◌%◌, ◌^◌, Bool, true, false, not, ◌&&◌, ◌||◌, ◌==◌, if◌then◌else◌, bit_and,
  bit_or,
}

pub record StateFlags : Type 0 where
  pub scheduled : Bool
  pub running : Bool
  pub completed : Bool
  pub closed : Bool
  pub handle : Bool
  pub awaiter : Bool
  pub locked : Bool

abbrev pub digit : Bool → ℕ
digit true = 1
digit false = 0

-- `StateFlags.bits`: `SCHEDULED` is the lowest bit, `LOCKED` the seventh.
unfoldable pub bits : StateFlags → ℕ
bits f =
    digit f.scheduled
    + 2
      * (digit f.running
          + 2
            * (digit f.completed
                + 2
                  * (digit f.closed
                      + 2 * (digit f.handle + 2 * (digit f.awaiter + 2 * digit f.locked)))))

-- `from_bits_unchecked`, of a word in which only the seven flags are set.
unfoldable pub from_bits_unchecked : ℕ → StateFlags
from_bits_unchecked n = record {
  scheduled = n % 2 == 1;
  running = n / 2 % 2 == 1;
  completed = n / 4 % 2 == 1;
  closed = n / 8 % 2 == 1;
  handle = n / 16 % 2 == 1;
  awaiter = n / 32 % 2 == 1;
  locked = n / 64 % 2 == 1;
}

abbrev pub empty : StateFlags
empty = record {
  scheduled = false;
  running = false;
  completed = false;
  closed = false;
  handle = false;
  awaiter = false;
  locked = false;
}

-- The named flags.
abbrev pub scheduled_flag : StateFlags
scheduled_flag = record empty { scheduled = true }

abbrev pub running_flag : StateFlags
running_flag = record empty { running = true }

abbrev pub completed_flag : StateFlags
completed_flag = record empty { completed = true }

abbrev pub closed_flag : StateFlags
closed_flag = record empty { closed = true }

abbrev pub handle_flag : StateFlags
handle_flag = record empty { handle = true }

abbrev pub awaiter_flag : StateFlags
awaiter_flag = record empty { awaiter = true }

abbrev pub locked_flag : StateFlags
locked_flag = record empty { locked = true }

-- `|`, `&` and `!` of flag sets; the complement stays within the seven flags.
abbrev pub union : StateFlags → StateFlags → StateFlags
union f g = record {
  scheduled = f.scheduled || g.scheduled;
  running = f.running || g.running;
  completed = f.completed || g.completed;
  closed = f.closed || g.closed;
  handle = f.handle || g.handle;
  awaiter = f.awaiter || g.awaiter;
  locked = f.locked || g.locked;
}

abbrev pub intersection : StateFlags → StateFlags → StateFlags
intersection f g = record {
  scheduled = f.scheduled && g.scheduled;
  running = f.running && g.running;
  completed = f.completed && g.completed;
  closed = f.closed && g.closed;
  handle = f.handle && g.handle;
  awaiter = f.awaiter && g.awaiter;
  locked = f.locked && g.locked;
}

abbrev pub complement : StateFlags → StateFlags
complement f = record {
  scheduled = not f.scheduled;
  running = not f.running;
  completed = not f.completed;
  closed = not f.closed;
  handle = not f.handle;
  awaiter = not f.awaiter;
  locked = not f.locked;
}

-- A state by its two parts, `State::new` and `State::parts`.
pub record State : Type 0 where
  pub flags : StateFlags
  pub refcount : ℕ

abbrev pub new : StateFlags → ℕ → State
new flags references = record { flags = flags; refcount = references }

abbrev pub set_refcount : State → ℕ → State
set_refcount s n = record s { refcount = n }

-- The eight bytes of a state as a number, least byte first: the count, then the flags.
unfoldable pub into_u64 : State → ℕ
unfolding bits
into_u64 s = s.refcount + bits s.flags * 2 ^ 32

unfoldable pub from_u64 : ℕ → State
unfolding from_bits_unchecked
from_u64 n = record { flags = from_bits_unchecked (n / 2 ^ 32); refcount = n % 2 ^ 32 }

-- The read-modify-write operations on the word that `AtomicState` holds: the word after them.
unfoldable pub fetch_or : StateFlags → ℕ → ℕ
unfolding bits
fetch_or val word = bit_or word (bits val * 2 ^ 32)

unfoldable pub fetch_and : StateFlags → ℕ → ℕ
unfolding bits
fetch_and val word = bit_and word (2 ^ 32 - 1 + bits val * 2 ^ 32)

unfoldable pub fetch_add : ℕ → ℕ → ℕ
fetch_add val word = (word + val) % 2 ^ 64

unfoldable pub fetch_sub : ℕ → ℕ → ℕ
fetch_sub val word = (word + 2 ^ 64 - val) % 2 ^ 64
