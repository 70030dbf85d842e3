-- ===== src/Server/Answers.antt =====
-- Analyses that are answered.
use mcp_xlsm_server.Prelude.{
  ℕ, ◌<◌, ◌^◌, Bool, Option, none, some, List, ℤ, pos, ◌≡◌, refl, lookup, string_eq, length, ◌⊎◌,
  inl, inr, Option-cases, ◌||◌, ltb_ℤ, ap, ◌*◌,
}
use mcp_xlsm_server.Models.{Text, Chunk}
use mcp_xlsm_server.Server.{gives, fails}
use mcp_xlsm_server.Server.Handlers.{
  ToolState, ToolResponse, Surroundings, handle_analyze_file, analysis_outcome, analysis,
}
use mcp_xlsm_server.Server.Params.{Params, as_text, as_int, read_analyze_params}
use mcp_xlsm_server.Tools.Handler.{
  AnalyzeResult, AnalyzeFileResponse, AnalyzeError, analyzed, refused, analyze_file, analyze_opened,
  analysis_of, metadata_of, or_default, hex, FileMetadata,
}
use mcp_xlsm_server.Tools.Partition.{create_chunks-IsPartition}
use mcp_xlsm_server.Workbook.{Workbook}

module _ {N : Type 0} (around : Surroundings N) where
  open around use {disk}

  -- The analysis is a response or an error.
  abbrev IsAnswer : AnalyzeResult → Type 0
  IsAnswer r =
      ((a : AnalyzeFileResponse) × (r ≡ analyzed a)) ⊎ ((e : AnalyzeError) × (r ≡ refused e))

  analysis_of-IsAnswer :
      (now chunk_size : ℤ) (n : ℕ) (file : Workbook) (metadata : FileMetadata)
      (made : Option (List Chunk)) (chunks : List Chunk)
      → made ≡ some chunks
      → IsAnswer (
          analysis_of around.codec around.manager
            (disk n)
            around.sha256
            now
            chunk_size
            file
            metadata
            made)
  unfolding analysis_of
  analysis_of-IsAnswer now chunk_size n file metadata made chunks h = rw h (inl (_, refl))

  analyze_opened-IsAnswer :
      (clock : ℤ → ℤ) (now : ℤ) (n size : ℕ) (stream_mode : Bool) (file : Workbook) (s : Option ℤ)
      (b : Option Text)
      → 0 < size
      → size < 2 ^ 62
      → length file.sheet_list < 2 ^ 62
      → length file.sheet_list < around.fuel
      → IsAnswer (
          analyze_opened around.codec around.manager
            (disk n)
            around.sha256
            clock
            now
            around.fuel
            (pos size)
            stream_mode
            file
            (metadata_of around.codec around.manager (disk n) around.sha256 file s b))
  unfolding analyze_opened metadata_of
  analyze_opened-IsAnswer clock now n size stream_mode file none b h1 h2 h3 h4 = inr (_, refl)
  analyze_opened-IsAnswer clock now n size stream_mode file (some bytes) none h1 h2 h3 h4 =
      inr (_, refl)
  analyze_opened-IsAnswer clock now n size stream_mode file (some bytes) (some b) h1 h2 h3 h4 =
      let count = length file.sheet_list in
      let streamed = ltb_ℤ (pos (100 * 1024 * 1024)) bytes || stream_mode in
      let (chunks, done, parts) =
        create_chunks-IsPartition around.codec around.manager file count size streamed
          (hex (around.sha256 b)) clock h1 h2 h3 around.fuel h4 in
      analysis_of-IsAnswer now (pos size) n file _ _ chunks done

  outcome_of_answer :
      (r : AnalyzeResult)
      → IsAnswer r
      → ((a : ToolResponse N) × (analysis_outcome around r ≡ gives a))
        ⊎ ((t : Text) × (analysis_outcome around r ≡ fails t))
  unfolding analysis_outcome
  outcome_of_answer r (inl (a, e)) = inl (analysis a, ap (analysis_outcome around) e)
  outcome_of_answer r (inr (f, e)) = inr (around.analyze_text f, ap (analysis_outcome around) e)

  -- Whatever the disk answers, an analysis in chunks of at least one sheet gives a response or an error:
  -- it neither panics nor runs on. The chunk size, 50 where the request has none, and the numbers of
  -- sheets are below 2 ^ 62, and there are more rounds than sheets.
  pub handle_analyze_file_answers :
      (p : Params) (s : ToolState) (size : ℕ)
      → or_default (as_int (lookup "chunk_size" p)) (pos 50) ≡ pos size
      → 0 < size
      → size < 2 ^ 62
      → ((path : Text) (file : Workbook)
          → (disk s.requests).open_file path ≡ some file
          → (length file.sheet_list < 2 ^ 62) × (length file.sheet_list < around.fuel))
      → ((r : ToolResponse N) × ((handle_analyze_file around p s).1 ≡ gives r))
        ⊎ ((t : Text) × ((handle_analyze_file around p s).1 ≡ fails t))
  unfolding handle_analyze_file read_analyze_params analyze_file analysis_outcome
  handle_analyze_file_answers p s size asked h1 h2 bounded =
      elim (Option-cases (as_text (lookup "filepath" p))) [
        | inl none_named ↦ rw none_named (inr (_, refl))
        | inr (path, named) ↦ elim (Option-cases ((disk s.requests).open_file path)) [
          | inl unopened ↦ rw (named, analyze_file, unopened) (inr (_, refl))
          | inr (file, opened) ↦
              let (h3, h4) = bounded path file opened in
              rw (named, analyze_file, opened, read_analyze_params, asked)
                (outcome_of_answer _
                  (analyze_opened-IsAnswer _ _ s.requests size _ file _ _ h1 h2 h3 h4))
        ]
      ]
