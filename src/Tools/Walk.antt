-- ===== src/Tools/Walk.antt =====
-- The answer of `analyze_file`, and the cursor by which a client goes on.
use mathlib.Core.Path.{subst}
use mcp_xlsm_server.Prelude.{
  ℕ, suc, ◌*◌, ◌<◌, ◌≤◌, ◌^◌, ◌≡◌, refl, sym, ◌∙◌, ap, Bool, true, false, Option, none, some, List,
  [], ◌∷◌, length, ℤ, pos, arith, inl, inr, ◌⊎◌, ltb_ℤ, ◌||◌,
}
use mcp_xlsm_server.Cursor.{Codec, Manager, create_chunk_cursor}
use mcp_xlsm_server.Models.{Text, Chunk}
use mcp_xlsm_server.Tools.{create_chunks}
use mcp_xlsm_server.Tools.Handler.{
  AnalyzeParams, Disk, FileMetadata, AnalyzeFileResponse, analyzed, or_default, metadata_of,
  calculate_file_metadata, analyze_opened, next_chunk_cursor, analysis_of, analyze_file,
}
use mcp_xlsm_server.Tools.Partition.{IsPartition, create_chunks-IsPartition}
use mcp_xlsm_server.Workbook.{Workbook}
use mcp_xlsm_server.Tools.Second.{IsSecond, walked_chunks}

some_injective : {A : Type 0} {a b : A} → some a ≡ some b → a ≡ b
some_injective h = ground (arith, h)

abbrev sheets_in : Option FileMetadata → ℕ
sheets_in none = 0
sheets_in (some metadata) = metadata.sheets_count

metadata_of-sheets_count :
    (codec : Codec) (m : Manager) (disk : Disk) (sha256 : Text → Text) (file : Workbook)
    (size : Option ℤ) (bytes : Option Text) (metadata : FileMetadata)
    → metadata_of codec m disk sha256 file size bytes ≡ some metadata
    → metadata.sheets_count ≡ length file.sheet_list
unfolding metadata_of
metadata_of-sheets_count codec m disk sha256 file (some size) (some bytes) metadata h =
    ap (λ o. sheets_in o) (sym h)
metadata_of-sheets_count codec m disk sha256 file (some size) none metadata h = ground (arith, h)
metadata_of-sheets_count codec m disk sha256 file none bytes metadata h = ground (arith, h)

-- Whether there are more chunks, and where the next cursor leads.
abbrev pub LeadsOn : Codec → Manager → ℤ → FileMetadata → ℕ → AnalyzeFileResponse → Type 0
LeadsOn codec m now metadata size r =
    ((metadata.sheets_count ≤ size) × (r.has_more ≡ false) × (r.next_cursor ≡ []))
    ⊎ ((size < metadata.sheets_count)
        × (r.has_more ≡ true)
        × ((chunk_id : Text) × (r.next_cursor
              ≡ create_chunk_cursor codec m now chunk_id (pos size) metadata.checksum none)))

module _ (codec : Codec) (m : Manager) (disk : Disk) (sha256 : Text → Text) (clock : ℤ → ℤ)
    (now : ℤ) (file : Workbook) (metadata : FileMetadata) (size fuel : ℕ) (stream_mode : Bool)
    (h1 : 0 < size) (h2 : size < 2 ^ 62) (h3 : metadata.sheets_count < 2 ^ 62)
    (h4 : metadata.sheets_count < suc fuel) where
  analysis_of-LeadsOn :
      (chunks : List Chunk)
      → IsSecond metadata.sheets_count size chunks
      → (r : AnalyzeFileResponse) × (analysis_of codec m disk sha256 now
            (pos size)
            file
            metadata
            (some chunks)
          ≡ analyzed r)
        × (r.metadata ≡ metadata)
        × (r.chunks ≡ chunks)
        × LeadsOn codec m now metadata size r
  unfolding analysis_of next_chunk_cursor
  analysis_of-LeadsOn [] le = (_, refl, refl, refl, inl (le, refl, refl))
  analysis_of-LeadsOn (c ∷ []) le = (_, refl, refl, refl, inl (le, refl, refl))
  analysis_of-LeadsOn (c0 ∷ c1 ∷ rest) (lt, at) = (
    _,
    refl,
    refl,
    refl,
    inr (
      lt,
      refl,
      (
        c1.chunk_id,
        ap (λ sheet. create_chunk_cursor codec m now c1.chunk_id sheet metadata.checksum none) at,
      ),
    ),
  )

  analyze_opened-LeadsOn :
      (r : AnalyzeFileResponse) × (analyze_opened codec m disk sha256 clock now
          (suc fuel)
          (pos size)
          stream_mode
          file
          (some metadata)
        ≡ analyzed r)
      × (r.metadata ≡ metadata)
      × IsPartition (pos size) (pos 0) (pos metadata.sheets_count) r.chunks
      × LeadsOn codec m now metadata size r
  unfolding analyze_opened create_chunks
  analyze_opened-LeadsOn =
      let count = metadata.sheets_count in
      let streamed = ltb_ℤ (pos (100 * 1024 * 1024)) metadata.file_size || stream_mode in
      let made =
        create_chunks codec m file (pos count) (pos size) streamed metadata.checksum clock
          (suc fuel) in
      let (chunks, done, parts) =
        create_chunks-IsPartition codec m file count size streamed metadata.checksum clock h1 h2 h3
          (suc fuel) h4 in
      let (chunks', done', second) =
        walked_chunks codec m file count size streamed metadata.checksum clock fuel h1 h2 h3 h4 in
      let same : chunks' ≡ chunks = some_injective (sym done' ∙ done) in
      let (r, analysis, same_metadata, same_chunks, leads) =
        analysis_of-LeadsOn chunks (subst (IsSecond count size) same second) in
      (
        r,
        ap (analysis_of codec m disk sha256 now (pos size) file metadata) done ∙ analysis,
        same_metadata,
        subst (IsPartition (pos size) (pos 0) (pos count)) (sym same_chunks) parts,
        leads,
      )

-- With a positive chunk size below 2^62, and fewer than 2^62 sheets, AnalyzeFile of a file that can be
-- opened and read answers, with fuel for one round more than there are sheets. Its metadata count the
-- sheets; its chunks partition them; and it has a next cursor, which begins at the sheet behind the
-- first chunk, exactly where there are more sheets than the chunk size.
pub analyze_file-LeadsOn :
    (codec : Codec) (m : Manager) (disk : Disk) (sha256 : Text → Text) (clock : ℤ → ℤ) (now : ℤ)
    (params : AnalyzeParams) (path : Text) (file : Workbook) (metadata : FileMetadata)
    (size fuel : ℕ)
    → params.filepath ≡ some path
    → disk.open_file path ≡ some file
    → calculate_file_metadata codec m disk sha256 path file ≡ some metadata
    → or_default params.chunk_size (pos 50) ≡ pos size
    → 0 < size
    → size < 2 ^ 62
    → metadata.sheets_count < 2 ^ 62
    → metadata.sheets_count < suc fuel
    → (r : AnalyzeFileResponse) × (analyze_file codec m disk sha256 clock now (suc fuel) params
        ≡ analyzed r)
      × (metadata.sheets_count ≡ length file.sheet_list)
      × (r.metadata ≡ metadata)
      × IsPartition (pos size) (pos 0) (pos metadata.sheets_count) r.chunks
      × LeadsOn codec m now metadata size r
unfolding analyze_file
analyze_file-LeadsOn codec m disk sha256 clock now params path file metadata size fuel at_path
      opened read chunk_size h1 h2 h3 h4 =
    let stream_mode = or_default params.stream_mode true in
    let (r, analysis, same, parts, leads) =
      analyze_opened-LeadsOn codec m disk sha256 clock now file metadata size fuel stream_mode h1 h2
        h3 h4 in
    (
      r,
      rw (analyze_file, at_path, opened, read, chunk_size) analysis,
      metadata_of-sheets_count codec m disk sha256 file (disk.stat_size path) (disk.read_file path)
          metadata read,
      same,
      parts,
      leads,
    )
