-- ===== src/Fragment/Short.antt =====
-- Nodes of src/yafrag.c without payload, and a TCP header that is looked for in it.
use qof.Base.{Bool-cases, false, inl, inr, refl, true, ℕ, ◌==◌, ◌≡◌}
use qof.Packet.{IpFragInfo}
use qof.Decode.Run.{ok}
use qof.Decode.Transport.{defrag_tcp}
use qof.Fragment.{FragNode, FragTab, Glib, frag_remove_node, node_write}
use qof.Fragment.Assemble.{short_first}

-- No node has payload: no function sets `paylen`.
abbrev pub NoPayload : {T : Type 0} → FragTab T → Type 0
NoPayload t = (a : ℕ) → (t.node a).paylen ≡ 0

module _ {T : Type 0} (g : Glib T) where
  pub node_write-NoPayload :
      (a : ℕ) (fn : FragNode) (t : FragTab T)
      → NoPayload t
      → fn.paylen ≡ 0
      → NoPayload (node_write g a fn t)
  node_write-NoPayload a fn t quiet e b = elim (Bool-cases (a == b)) [
    | inl same ↦ rw same e
    | inr other ↦ rw other (quiet b)
  ]

  pub short_first_drops :
      (a end : ℕ) (fraginfo : IpFragInfo) (t : FragTab T)
      → (t.node a).paylen ≡ 0
      → short_first g a end fraginfo t ≡ ok (false, fraginfo, frag_remove_node g a true t)
  unfolding short_first defrag_tcp
  short_first_drops a end fraginfo t e = rw e refl
