-- ===== src/Ir/Chunks.antt =====
-- The list of chunks as the sequence of instructions that the later passes walk through.
use mathlib.Core.List.{append_assoc}
use tiny_compile.Prelude.{◌<◌, ◌≤◌, ◌≡◌, refl, List, [], ◌∷◌, ◌++◌, arith, length, length-append}
use tiny_compile.Ir.{
  IrInstruction, IrFunction, ir_chunk_size, max_ir_instructions_per_function, append_chunk, emit,
}

-- the instructions in order of emission
abbrev pub flatten_chunks : List (List IrInstruction) → List IrInstruction
flatten_chunks [] = []
flatten_chunks (tail ∷ rest) = flatten_chunks rest ++ tail

abbrev pub code : IrFunction → List IrInstruction
code f = flatten_chunks f.chunks

-- No chunk is larger than its array, or empty.
abbrev pub ChunksFit : List (List IrInstruction) → Type 0
ChunksFit [] = Unit
ChunksFit (c ∷ cs) = (0 < length c) × (length c ≤ ir_chunk_size) × ChunksFit cs

pub record IsChunked (f : IrFunction) : Type 0 where
  pub fit : ChunksFit f.chunks
  pub counted : f.total_count ≡ length (code f)
  pub bounded : f.total_count ≤ max_ir_instructions_per_function

append_chunk-flatten :
    (i : IrInstruction) (cs : List (List IrInstruction))
    → flatten_chunks (append_chunk i cs) ≡ flatten_chunks cs ++ i ∷ []
unfolding append_chunk
append_chunk-flatten i [] = refl
append_chunk-flatten i (t ∷ cs) = ground (arith, append_assoc (flatten_chunks cs) t (i ∷ []))

append_chunk-fit :
    (i : IrInstruction) (cs : List (List IrInstruction))
    → ChunksFit cs
    → ChunksFit (append_chunk i cs)
unfolding append_chunk
append_chunk-fit i [] h = omega arith
append_chunk-fit i (t ∷ cs) h = ground (arith, length-append t (i ∷ []))

-- Below the limit `emit` appends the instruction to the sequence.
pub emit-code :
    (i : IrInstruction) (f : IrFunction)
    → f.total_count < max_ir_instructions_per_function
    → code (emit i f) ≡ code f ++ i ∷ []
unfolding emit
emit-code i f h = ground (arith, append_chunk-flatten i f.chunks)

-- `emit` keeps the chunks within their arrays and the counter exact, at the limit too.
pub emit-IsChunked : (i : IrInstruction) (f : IrFunction) → IsChunked f → IsChunked (emit i f)
unfolding emit
emit-IsChunked i f v = ground (
  arith,
  append_chunk-flatten i f.chunks,
  append_chunk-fit i f.chunks,
  length-append (code f) (i ∷ []),
)
