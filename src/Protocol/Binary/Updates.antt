-- ===== src/Protocol/Binary/Updates.antt =====
-- What the update functions write, and that they write nothing else.
use esp_iot_framework.Prelude.{
  ℕ, ◌+◌, ◌-◌, ◌*◌, ◌≤◌, ◌<◌, ◌≡◌, inl, inr, false, ◌&&◌, ◌∷◌, arith, ltb, leb, ◌==◌, if◌then◌else◌,
  ltb→lt, leb→le, Bool-cases, length, get_or, set, take, drop, length-take, length-drop, take-all,
  take-append, Bytes, write_at, length-write_at, write_at-zero, get_or-write_at, get_or-drop,
  get_or-take, drop-all, c_string, HasNoZero, strnlen-terminated, strnlen-full, set-write_at,
  append-nil,
}
use esp_iot_framework.Protocol.Types.{ResponseCode, code, is_ok, PacketHeader}
use esp_iot_framework.Protocol.Binary.{
  update_parameter_value, update_parameter_value_array, update_string_value,
}

-- An update is taken exactly when the data has the parameter's size. It then replaces the parameter
-- by the data, and otherwise leaves it alone.
update_parameter_value_lem :
    (parameter : Bytes) (size : ℕ) (header : PacketHeader) (bytes : Bytes)
    → length parameter ≡ size
    → header.size ≡ length bytes
    → update_parameter_value parameter size header bytes ≡ (
        if header.size == size
        then (code ResponseCode.ok, bytes)
        else (code ResponseCode.bad_request, parameter))
unfolding update_parameter_value
update_parameter_value_lem parameter size header bytes e f = ground (
  arith,
  take-all size bytes,
  write_at-zero parameter bytes,
  drop-all (length bytes) parameter,
  append-nil bytes,
)

-- An array update is taken exactly when the data has the size of an index and an element, and the
-- index is inside the array. It then changes the bytes of the element at that index to those that
-- follow the index, and every other byte of the array keeps its value.
update_parameter_value_array_lem :
    (array : Bytes) (count size_of : ℕ) (header : PacketHeader) (bytes : Bytes)
    → length array ≡ count * size_of
    → header.size ≡ length bytes
    → let index = get_or bytes 0 0 in
      let (response, changed) = update_parameter_value_array array count size_of header bytes in
      (response
        ≡ code (
            if (header.size == size_of + 1) && ltb index count
            then ResponseCode.ok
            else ResponseCode.bad_request))
      × (length changed ≡ length array)
      × ((j : ℕ)
          → j < length array
          → get_or changed j 0 ≡ (
              if is_ok response && (leb (index * size_of) j && ltb j (index * size_of + size_of))
              then get_or bytes (1 + (j - index * size_of)) 0
              else get_or array j 0))
unfolding update_parameter_value_array is_ok
update_parameter_value_array_lem array count size_of header bytes e f = (
  ground arith,
  ground (arith, length-write_at array (get_or bytes 0 0 * size_of) (take size_of (drop 1 bytes))),
  λ j h.
      let at : ℕ = get_or bytes 0 0 * size_of in
      ground (
        arith,
        get_or-write_at array at (take size_of (drop 1 bytes)) j h,
        length-take size_of (drop 1 bytes),
        length-drop 1 bytes,
        get_or-take size_of (drop 1 bytes) (j - at),
        get_or-drop 1 bytes (j - at),
      ),
)

-- What `memcpy` and the terminator leave in the memory of a string that fits.
pub stored_reads_back :
    (str text : Bytes)
    → HasNoZero text
    → length text ≤ length str
    → c_string
        (if ltb (length text) (length str)
          then set (write_at str 0 text) (length text) 0
          else write_at str 0 text)
        (length str)
      ≡ text
stored_reads_back str text z h = elim (Bool-cases (ltb (length text) (length str))) [
  | inl shorter ↦ rw (
    shorter,
    set-write_at str text (ltb→lt _ _ shorter),
    strnlen-terminated text (drop (length text + 1) str) (length str) z (ltb→lt _ _ shorter),
    take-append text (0 ∷ drop (length text + 1) str),
  )
  | inr full ↦
      let e : length str ≡ length text = ground arith in
      rw (
        full,
        e,
        write_at-zero str text h,
        strnlen-full text (drop (length text) str) z,
        take-append text (drop (length text) str),
      )
]

-- A string that fits is accepted and stored so that it reads back: up to its terminator, or up to the
-- end of the memory if it fills it, the memory holds the string. A longer one is refused with
-- BAD_REQUEST and changes nothing.
update_string_value_reads_back :
    (str : Bytes) (max_size : ℕ) (header : PacketHeader) (text : Bytes)
    → length str ≡ max_size
    → header.size ≡ length text
    → HasNoZero text
    → let (response, changed) = update_string_value str max_size header text in
      let fits = leb (length text) max_size in
      (response ≡ code (if fits then ResponseCode.ok else ResponseCode.bad_request))
      × ((if fits then c_string changed max_size else changed) ≡ (if fits then text else str))
unfolding update_string_value
update_string_value_reads_back str max_size header text e f z =
    rw (← e, f, take-all (length text) text (omega arith))
      (elim (Bool-cases (leb (length text) (length str))) [
        | inl fits ↦
            let not_long : ltb (length str) (length text) ≡ false = ground arith in
            (ground arith, rw (fits, not_long) (stored_reads_back str text z (leb→le _ _ fits)))
        | inr long ↦ (ground arith, ground arith)
      ])
