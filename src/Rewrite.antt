-- ===== src/Rewrite.antt =====
-- apigate-core/src/route.rs: the rewrite templates and the metadata of a mounted route.
use apigate.Prelude.{ℕ, List}
use apigate.Str.{Str}

pub data SrcSeg : Type 0 where
  lit : Str → SrcSeg
  param : SrcSeg

pub data DstChunk : Type 0 where
  lit : Str → DstChunk
  capture : (src_index : ℕ) → DstChunk

pub record RewriteTemplate : Type 0 where
  pub src : List SrcSeg
  pub dst : List DstChunk
  pub static_len : ℕ

-- What the route macros emit.
pub data RewriteSpec : Type 0 where
  strip_prefix : RewriteSpec
  fixed : Str → RewriteSpec
  template : RewriteTemplate → RewriteSpec

-- `FixedRewrite`: the raw target, and the target parsed once by `PathAndQuery::from_static`.
pub record FixedRewrite (PathAndQuery : Type 0) : Type 0 where
  pub raw : Str
  pub no_query : PathAndQuery

pub data Rewrite (PathAndQuery : Type 0) : Type 0 where
  strip_prefix : Rewrite PathAndQuery
  fixed : FixedRewrite PathAndQuery → Rewrite PathAndQuery
  template : RewriteTemplate → Rewrite PathAndQuery
