-- ===== src/Misc/Storage/Persistence.antt =====
-- What a storage reads after a commit, and when it writes.
use esp_iot_framework.Prelude.{
  ℕ, ◌+◌, ◌<◌, ◌≡◌, refl, sym, ap, ap₂, ◌∙◌, ◌⊎◌, inl, inr, true, false, ◌&&◌, Option, some, [],
  ◌∷◌, ◌++◌, arith, ◌==◌, Bool-cases, Option-cases, length, drop, length-drop, take-all, Bytes,
  append-nil,
}
use esp_iot_framework.Misc.Storage.{
  Storage, of_le32, le32, stored_size, check_header, begin, differs, check_changed, image,
  commit_impl, save, force_save, is_pending_commit, clear_timer, clear_timeout,
}

-- The constructor's `version` is a `uint8_t` and its `header` a `uint32_t`; the size of the value
-- leaves that of the file below 2 ^ 16.
pub record IsValid (s : Storage) : Type 0 where
  pub version : s.version < 256
  pub header : s.header < 4294967296
  pub size : 5 + length s.bytes < 65536

of_le32-le32 : (n : ℕ) (rest : Bytes) → n < 4294967296 → of_le32 (le32 n ++ rest) ≡ n
of_le32-le32 n rest h = omega arith

differs_self : (bs rest : Bytes) → differs bs (bs ++ rest) ≡ false
unfolding differs
differs_self [] rest = refl
differs_self (b ∷ bs) rest = ground (arith, differs_self bs rest)

differs-false : (bs f : Bytes) → length f ≡ length bs → differs bs f ≡ false → f ≡ bs
unfolding differs
differs-false [] [] h e = refl
differs-false [] (x ∷ f) h e = absurd (omega arith)
differs-false (b ∷ bs) [] h e = absurd (omega arith)
differs-false (b ∷ bs) (x ∷ f) h e =
    ap₂ (λ y g. y ∷ g) (ground (arith, e)) (differs-false bs f (omega arith) (ground (arith, e)))

check_changed-image : (s : Storage) → IsValid s → check_changed s (image s) ≡ false
unfolding check_changed
check_changed-image s v = ground (
  arith,
  v.size,
  of_le32-le32 s.header (s.version ∷ s.bytes) v.header,
  rw append-nil at (differs_self s.bytes []),
)

-- A file that need not be written again is one that the value is read from.
unchanged :
    (s : Storage) (f : Bytes)
    → IsValid s
    → check_changed s f ≡ false
    → ((length f == stored_size s) && check_header s f ≡ true) × (drop 5 f ≡ s.bytes)
unfolding check_changed
unchanged s f v e =
    let size : length f ≡ 5 + length s.bytes = ground (arith, v.size, e) in
    (
      ground (arith, e),
      differs-false s.bytes (drop 5 f) (omega (arith, length-drop 5 f)) (ground (arith, e)),
    )

begin-file :
    (t : Storage) (f d : Bytes)
    → t.file ≡ some f
    → ((length f == stored_size t) && check_header t f) ≡ true
    → drop 5 f ≡ d
    → length d ≡ length t.bytes
    → (begin t).bytes ≡ d
unfolding begin
begin-file t f d e ok dr len = rw (e, ok, dr, ← len, take-all (length d) d (omega arith))

-- A commit writes the value's image, or finds that the file holds it.
commit_impl-cases :
    (s : Storage)
    → s.has_fs ≡ true
    → (commit_impl s ≡ record s { file = some (image s); writes = s.writes + 1 })
      ⊎ ((f : Bytes) × (s.file ≡ some f) × (check_changed s f ≡ false) × (commit_impl s ≡ s))
unfolding commit_impl
commit_impl-cases s fs = elim (Option-cases s.file) [
  | inl missing ↦ inl (simp (fs, missing))
  | inr (f, there) ↦ elim (Bool-cases (check_changed s f)) [
    | inl changed ↦ inl (simp (fs, there, changed))
    | inr same ↦ inr (f, there, same, simp (fs, there, same))
  ]
]

commit_impl-unchanged :
    (s : Storage) (f : Bytes) → s.file ≡ some f → check_changed s f ≡ false → commit_impl s ≡ s
unfolding commit_impl
commit_impl-unchanged s f there same = elim (Bool-cases s.has_fs) [
  | inl fs ↦ simp (fs, there, same)
  | inr none_yet ↦ simp none_yet
]

commit_impl-file :
    (s : Storage)
    → IsValid s
    → s.has_fs ≡ true
    → (f : Bytes) × ((commit_impl s).file ≡ some f) × (check_changed s f ≡ false)
commit_impl-file s v fs = elim (commit_impl-cases s fs) [
  | inl written ↦ (image s, rw written, check_changed-image s v)
  | inr (f, there, same, kept) ↦ (f, rw kept there, same)
]

-- A storage that was started on the file that another, well formed and with a file system, left
-- after a commit has that one's value, if both have the same version, header and size, whether the
-- commit wrote the file or found it up to date.
pub begin-commit_impl :
    (s t : Storage)
    → IsValid s
    → s.has_fs ≡ true
    → t.version ≡ s.version
    → t.header ≡ s.header
    → length t.bytes ≡ length s.bytes
    → t.file ≡ (commit_impl s).file
    → (begin t).bytes ≡ s.bytes
begin-commit_impl s t v fs ver hdr len e =
    let (f, left, same) = commit_impl-file s v fs in
    let (accepted, value) = unchanged s f v same in
    begin-file t f s.bytes (e ∙ left) (rw (len, hdr, ver) accepted) value (sym len)

commit_impl-no_fs : (s : Storage) → s.has_fs ≡ false → commit_impl s ≡ s
unfolding commit_impl
commit_impl-no_fs s e = simp e

-- A second commit of the same value, of a well-formed storage, changes nothing, and so writes
-- nothing.
commit_impl_twice : (s : Storage) → IsValid s → commit_impl (commit_impl s) ≡ commit_impl s
commit_impl_twice s v = elim (Bool-cases s.has_fs) [
  | inl fs ↦ elim (commit_impl-cases s fs) [
    | inl written ↦
        let after = record s { file = some (image s); writes = s.writes + 1 } in
        rw written (
          commit_impl-unchanged after (image s) refl (
            check_changed-image after
              (record { version = v.version; header = v.header; size = v.size })))
    | inr (f, there, same, kept) ↦ ap commit_impl kept
  ]
  | inr none_yet ↦ ap commit_impl (commit_impl-no_fs s none_yet)
]

-- A commit changes the file and nothing else.
commit_impl-fields :
    (s : Storage)
    → commit_impl s ≡ record s { file = (commit_impl s).file; writes = (commit_impl s).writes }
commit_impl-fields s = elim (Bool-cases s.has_fs) [
  | inl fs ↦ elim (commit_impl-cases s fs) [
    | inl written ↦ rw written
    | inr (f, there, same, kept) ↦ rw kept
  ]
  | inr none_yet ↦ rw (commit_impl-no_fs s none_yet)
]

pub commit_impl-save_timer_id : (s : Storage) → (commit_impl s).save_timer_id ≡ s.save_timer_id
commit_impl-save_timer_id s = ap (λ (x : Storage). x.save_timer_id) (commit_impl-fields s)

clear_timer-fields :
    (s : Storage) → clear_timer s ≡ record s { timer_calls = (clear_timer s).timer_calls }
clear_timer-fields s = ground arith

-- A forced save changes the file and what the timer was asked for.
pub force_save-fields :
    (s : Storage)
    → force_save s ≡ record s {
      file = (force_save s).file;
      writes = (force_save s).writes;
      timer_calls = (clear_timer s).timer_calls;
    }
unfolding force_save
force_save-fields s =
    commit_impl-fields (clear_timer s)
    ∙ ap
        (λ (x : Storage). record x {
          file = (commit_impl (clear_timer s)).file;
          writes = (commit_impl (clear_timer s)).writes;
        })
        (clear_timer-fields s)

pub save-save_timer_id :
    (s : Storage) (id : Option ℕ) → s.has_fs ≡ true → (save s id).save_timer_id ≡ id
unfolding save
save-save_timer_id s id h = rw h

-- A commit that is forced on a storage with a file system while a save is scheduled clears the
-- timer, but the storage stays pending.
force_save_pending :
    (s : Storage) (id : ℕ)
    → s.has_fs ≡ true
    → let saved = save s (some id) in
      (is_pending_commit (force_save saved) ≡ true)
      × ((force_save saved).timer_calls ≡ saved.timer_calls ++ (clear_timeout id ∷ []))
force_save_pending s id h =
    let saved = save s (some id) in
    let e = save-save_timer_id s (some id) h in
    let fields = force_save-fields saved in
    (
      ap (λ (x : Storage). is_pending_commit x) fields ∙ rw (e, is_pending_commit) refl,
      ap (λ (x : Storage). x.timer_calls) fields ∙ rw (e, clear_timer) refl,
    )
