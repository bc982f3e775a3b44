-- ===== src/Misc/Storage.antt =====
-- misc/storage.h. The state is the storage's, with the file at its path, which is `none` while there
-- is none, and the calls of the timer; `id` is what `add_timeout` returns, and `none` stands for -1.
-- `_data` is the memory of `T`, and `blank` that of a `T()`. A file that was opened for writing
-- holds what was written, as long as the file system has room.
pub mod Persistence
use esp_iot_framework.Prelude.{
  ℕ, ◌+◌, ◌*◌, ◌/◌, ◌%◌, Bool, true, false, not, ◌&&◌, ◌||◌, Option, none, some, List, [], ◌∷◌,
  ◌++◌, ◌==◌, if◌then◌else◌, u16_mod, length, get_or, take, drop, Bytes,
}

pub data TimerCall : Type 0 where
  add_timeout : ℕ → TimerCall
  clear_timeout : ℕ → TimerCall

pub record Storage : Type 0 where
  pub has_fs : Bool
  pub blank : Bytes
  pub bytes : Bytes
  pub version : ℕ
  pub header : ℕ
  pub save_timer_id : Option ℕ
  pub file : Option Bytes
  pub writes : ℕ
  pub timer_calls : List TimerCall

abbrev pub save_interval : ℕ
save_interval = 60000

abbrev pub le32 : ℕ → Bytes
le32 n = n % 256 ∷ n / 256 % 256 ∷ n / 65536 % 256 ∷ n / 16777216 % 256 ∷ []

abbrev pub of_le32 : Bytes → ℕ
of_le32 f = get_or f 0 0 + 256 * get_or f 1 0 + 65536 * get_or f 2 0 + 16777216 * get_or f 3 0

-- `size()` is a `uint16_t`.
abbrev pub stored_size : Storage → ℕ
stored_size s = (5 + length s.bytes) % u16_mod

abbrev pub check_header : Storage → Bytes → Bool
check_header s f = (of_le32 f == s.header) && (get_or f 4 0 == s.version)

-- `begin(fs)`
unfoldable pub begin : Storage → Storage
begin s =
    let reset_value = record s { has_fs = true; bytes = s.blank } in
    elim s.file [
      | some f ↦
          if (length f == stored_size s) && check_header s f
          then record s { has_fs = true; bytes = take (length s.bytes) (drop 5 f) }
          else reset_value
      | none ↦ reset_value
    ]

-- The loop of `_check_changed`.
pub differs : Bytes → Bytes → Bool
differs [] f = false
differs (b ∷ bs) f = not (b == get_or f 0 0) || differs bs (drop 1 f)

unfoldable pub check_changed : Storage → Bytes → Bool
unfolding differs
check_changed s f =
    not (length f == stored_size s) || (not (check_header s f) || differs s.bytes (drop 5 f))

-- What a commit writes.
abbrev pub image : Storage → Bytes
image s = le32 s.header ++ s.version ∷ s.bytes

unfoldable pub commit_impl : Storage → Storage
unfolding check_changed
commit_impl s =
    let written = record s { file = some (image s); writes = s.writes + 1 } in
    if not s.has_fs
    then s
    else elim s.file [ some f ↦ if check_changed s f then written else s | none ↦ written ]

abbrev clear_timer : Storage → Storage
clear_timer s = elim s.save_timer_id [
  | some id ↦ record s { timer_calls = s.timer_calls ++ (clear_timeout id ∷ []) }
  | none ↦ s
]

unfoldable pub save : Storage → Option ℕ → Storage
save s id =
    let s' = clear_timer s in
    if not s.has_fs then s else record s' {
      save_timer_id = id;
      timer_calls = s'.timer_calls ++ (add_timeout save_interval ∷ []);
    }

-- The callback of the timer.
unfoldable pub on_save_timer : Storage → Storage
unfolding commit_impl
on_save_timer s = commit_impl (record s { save_timer_id = none })

unfoldable pub force_save : Storage → Storage
unfolding commit_impl
force_save s = commit_impl (clear_timer s)

unfoldable pub reset : Storage → Option ℕ → Storage
unfolding save
reset s id = save (record s { bytes = s.blank }) id

abbrev pub is_pending_commit : Storage → Bool
is_pending_commit s = elim s.save_timer_id [ some id ↦ true | none ↦ false ]
