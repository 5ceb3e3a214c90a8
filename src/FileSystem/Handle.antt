-- ===== src/FileSystem/Handle.antt =====
-- A file as a program holds it, source/MicroBitFile.cpp, on the default file system, which exists.
-- Lengths and sizes are not negative, and an offset is its 32 bits.
pub mod Moves
use codal_microbit_v2_fft.Base.{
  ℕ, ◌^◌, Bool, true, false, Option, some, List, [], Bytes, Code, Reply, value, error, length, leb,
  of_list, slice, if◌then◌else◌, ◌==◌,
}
use codal_microbit_v2_fft.Nvm.{Nvm}
use codal_microbit_v2_fft.FileSystem.{◌>>=◌, Config, FileSystem}
use codal_microbit_v2_fft.FileSystem.Data.{read, write}
use codal_microbit_v2_fft.FileSystem.Open.{
  open_file, flush, close, seek, remove, seek_set, seek_end, seek_cur,
}

-- `fileName` and `fileHandle`
pub record Handle : Type 0 where
  pub file_name : List ℕ
  pub file_handle : Reply ℕ

-- `isValid`; `getHandle` is the member.
unfoldable pub is_valid : Handle → Bool
is_valid h = elim h.file_handle [ value fd ↦ true | error c ↦ false ]

module _ (nvm : Nvm) (cfg : Config) where
  open nvm use {Mem}

  -- The constructor
  unfoldable pub open_handle : FileSystem Mem → List ℕ → ℕ → Option (Handle × FileSystem Mem)
  open_handle fs name mode = do
    (reply, fs') ← open_file nvm cfg fs name mode
    some (record { file_name = name; file_handle = reply }, fs')

  -- `setPosition`
  unfoldable pub set_position : Handle → FileSystem Mem → ℕ → Option (Reply ℕ × FileSystem Mem)
  set_position h fs offset = elim h.file_handle [
    | error c ↦ some (error Code.not_supported, fs)
    | value fd ↦
        if leb (2 ^ 31) offset
        then some (error Code.invalid_parameter, fs)
        else seek nvm cfg fs fd offset seek_set
  ]

  -- `getPosition`
  unfoldable pub get_position : Handle → FileSystem Mem → Option (Reply ℕ × FileSystem Mem)
  get_position h fs = elim h.file_handle [
    | error c ↦ some (error Code.not_supported, fs)
    | value fd ↦ seek nvm cfg fs fd 0 seek_cur
  ]

  -- `write(bytes, len)`
  unfoldable pub write_handle :
      Handle → FileSystem Mem → Option Bytes → ℕ → Option (Reply ℕ × FileSystem Mem)
  write_handle h fs bytes len = elim h.file_handle [
    | error c ↦ some (error Code.not_supported, fs)
    | value fd ↦ write nvm cfg fs fd bytes len
  ]

  -- `write(s)`
  unfoldable pub write_text : Handle → FileSystem Mem → List ℕ → Option (Reply ℕ × FileSystem Mem)
  write_text h fs s = write_handle h fs (some (of_list s)) (length s)

  -- `append(bytes, len)`
  unfoldable pub append :
      Handle → FileSystem Mem → Option Bytes → ℕ → Option (Reply ℕ × FileSystem Mem)
  append h fs bytes len = elim h.file_handle [
    | error c ↦ some (error Code.not_supported, fs)
    | value fd ↦ (do
      (reply, fs') ← seek nvm cfg fs fd 0 seek_end
      elim reply [ error c ↦ some (error c, fs') | value position ↦ write_handle h fs' bytes len ])
  ]

  -- `append(s)`
  unfoldable pub append_text : Handle → FileSystem Mem → List ℕ → Option (Reply ℕ × FileSystem Mem)
  append_text h fs s = append h fs (some (of_list s)) (length s)

  -- `read(buffer, size)`, with a buffer that is not NULL
  unfoldable pub read_bytes :
      Handle → FileSystem Mem → Bytes → ℕ → Option (Reply ℕ × Bytes × FileSystem Mem)
  read_bytes h fs buffer size = elim h.file_handle [
    | error c ↦ some (error Code.not_supported, buffer, fs)
    | value fd ↦ read nvm cfg fs fd (some buffer) size
  ]

  -- `read()`
  unfoldable pub read_char : Handle → FileSystem Mem → Option (Reply ℕ × FileSystem Mem)
  read_char h fs = elim h.file_handle [
    | error c ↦ some (error Code.not_supported, fs)
    | value fd ↦ (do
      (reply, c, fs') ← read_bytes h fs cfg.stack 1
      some (elim reply [
        | error e ↦ (error e, fs')
        | value n ↦ if n == 0 then (error Code.no_data, fs') else (value (c 0), fs')
      ]))
  ]

  -- `read(size)`
  unfoldable pub read_text : Handle → FileSystem Mem → ℕ → Option (List ℕ × FileSystem Mem)
  read_text h fs size = do
    (reply, buff, fs') ← read_bytes h fs (λ i. if i == size then 0 else cfg.stack i) size
    some (elim reply [ error c ↦ ([], fs') | value n ↦ (slice buff 0 n, fs') ])

  -- `flush`
  unfoldable pub flush_handle : Handle → FileSystem Mem → Option (Code × FileSystem Mem)
  flush_handle h fs = elim h.file_handle [
    | error c ↦ some (Code.not_supported, fs)
    | value fd ↦ flush nvm cfg fs fd
  ]

  -- `close`, and the destructor
  unfoldable pub close_handle : Handle → FileSystem Mem → Option (Code × Handle × FileSystem Mem)
  close_handle h fs = elim h.file_handle [
    | error c ↦ some (Code.not_supported, h, fs)
    | value fd ↦ (do
      (r, fs') ← close nvm cfg fs fd
      some (elim r [
        | Code.ok ↦ (Code.ok, record h { file_handle = error Code.no_resources }, fs')
        | other ↦ (other, h, fs')
      ]))
  ]

  -- `remove`; the result of `close` is not looked at.
  unfoldable pub remove_handle : Handle → FileSystem Mem → Option (Code × Handle × FileSystem Mem)
  remove_handle h fs = do
    let shut = close_handle h fs
    (r, h1, fs1) ← (if is_valid h then shut else some (Code.ok, h, fs))
    (r2, fs2) ← remove nvm cfg fs1 h.file_name
    some (elim r2 [
      | Code.ok ↦ (Code.ok, record h1 { file_handle = error Code.not_supported }, fs2)
      | other ↦ (other, h1, fs2)
    ])
