-- ===== src/Backfire.antt =====
-- The misc device of src/backfire/backfire.c: backfire_open, backfire_release, backfire_write and
-- backfire_read, each under the device's spinlock or touching one variable, so taken as one step.
-- sscanf, the clock and kill_pid are the environment's: the signal number and the time that they
-- deliver are arguments, and the signal sent is a result.
pub mod Exclusive
mod Tests
use rt_tests.Base.{
  ℕ, zero, suc, ◌+◌, ◌-◌, ◌<◌, ◌≡◌, Bool, true, false, ◌&&◌, ◌||◌, not, Option, none, some, List,
  [], ◌∷◌, get_elem?, if◌then◌else◌,
}
use rt_tests.Base.Int.{ℤ, pos, ◌+ℤ◌, ◌-ℤ◌, eqb_ℤ, ltb_ℤ}
use rt_tests.Base.Word.{to_int}

-- What a caller passes to open(2): O_EXCL in `f_flags`, FMODE_WRITE in `f_mode`.
pub record File : Type 0 where
  pub o_excl : Bool
  pub writable : Bool

pub record Timeval : Type 0 where
  pub sec : ℤ
  pub usec : ℤ

-- The statics of the driver. `open_mode` is the two bits BACKFIRE_WRITE and BACKFIRE_EXCL.
pub record Device : Type 0 where
  pub open_cnt : ℤ
  pub mode_write : Bool
  pub mode_excl : Bool
  pub sendtime : Timeval

abbrev pub booted : Device
booted = record {
  open_cnt = pos 0;
  mode_write = false;
  mode_excl = false;
  sendtime = record { sec = pos 0; usec = pos 0 };
}

-- backfire_open; `none` is -EBUSY.
unfoldable pub backfire_open : File → Device → Option Device
unfolding ◌+ℤ◌
backfire_open f d =
    if (not (eqb_ℤ d.open_cnt (pos 0)) && f.o_excl) || d.mode_excl
    then none
    else some (record d {
      mode_excl = f.o_excl || d.mode_excl;
      mode_write = f.writable || d.mode_write;
      open_cnt = d.open_cnt +ℤ pos 1;
    })

-- backfire_release. The test reads the count after the decrement.
unfoldable pub backfire_release : File → Device → Device
unfolding ◌-ℤ◌
backfire_release f d =
    let left = d.open_cnt -ℤ pos 1 in
    record d {
      open_cnt = left;
      mode_excl = if eqb_ℤ left (pos 1) && d.mode_excl then false else d.mode_excl;
      mode_write = if f.writable then false else d.mode_write;
    }

-- backfire_write: `parsed` is what sscanf finds in the buffer, `now` what do_gettimeofday
-- stores, `size` is strlen(buf). The results are the signal sent to the caller and the value returned.
unfoldable pub backfire_write : Option ℤ → Timeval → ℕ → Device → Device × Option ℤ × ℕ
backfire_write none now size d = (d, none, size)
backfire_write (some signo) now size d =
    if ltb_ℤ (pos 0) signo && ltb_ℤ signo (pos 32)
    then (record d { sendtime = now }, some signo, size)
    else (d, none, size)

-- The two numbers that backfire_read prints.
unfoldable pub backfire_read : Device → ℤ × ℤ
unfolding to_int
backfire_read d = (to_int d.sendtime.sec, to_int d.sendtime.usec)

-- The driver with the files that are open on it. The kernel calls release once for each open file.
pub record System : Type 0 where
  pub device : Device
  pub files : List File

abbrev pub remove : List File → ℕ → List File
remove [] i = []
remove (f ∷ fs) zero = fs
remove (f ∷ fs) (suc i) = f ∷ remove fs i

pub data Step (s : System) : System → Type 0 where
  opened :
      (f : File) (d : Device)
      → backfire_open f s.device ≡ some d
      → Step s (record { device = d; files = f ∷ s.files })
  refused : (f : File) → backfire_open f s.device ≡ none → Step s s
  released :
      (i : ℕ) (f : File)
      → get_elem? s.files i ≡ some f
      → Step s (record { device = backfire_release f s.device; files = remove s.files i })
  written :
      (parsed : Option ℤ) (now : Timeval) (size : ℕ)
      → Step s (record { device = (backfire_write parsed now size s.device).0; files = s.files })

pub data Reach (s : System) : System → Type 0 where
  here : Reach s s
  next : {t u : System} → Reach s t → Step t u → Reach s u

abbrev pub start : System
start = record { device = booted; files = [] }
