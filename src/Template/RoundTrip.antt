-- ===== src/Template/RoundTrip.antt =====
-- The compiler of rewrite templates, on the texts that a route attribute writes.
use apigate.Prelude.{◌≡◌, List, [], map, ok, done}
use apigate.Rewrite.{RewriteTemplate}
use apigate.Template.{emit, emit_src, emit_dst, compile_rewrite_template}
use apigate.Template.Pattern.{
  Seg, Target, print_route, print_target, names, ir_of_seg, IsRoute, IsTarget, literal_length,
}
use apigate.Template.Source.{parse_route_source-print}
use apigate.Template.Target.{chunks, parse_rewrite_target-print}

-- The template of a route and a target.
abbrev pub template_of : List Seg → Target → RewriteTemplate
template_of segs t = record {
  src = map emit_src (map ir_of_seg segs);
  dst = map emit_dst (chunks (names segs) t.first t.parts);
  static_len = literal_length t.first t.parts;
}

-- Compiling the printed route path and target of a well-formed route succeeds within the fuel of
-- the scan, with the template of its segments and chunks; the recorded static length is the length
-- of the literal text of the target.
pub compile_rewrite_template-print :
    (segs : List Seg) (t : Target)
    → IsRoute [] segs
    → IsTarget (names segs) t
    → compile_rewrite_template (print_route segs) (print_target t) ≡ done (ok (template_of segs t))
unfolding compile_rewrite_template emit
compile_rewrite_template-print segs t r h =
    rw (parse_route_source-print segs r, compile_rewrite_template)
      (rw (parse_rewrite_target-print (names segs) t h))
