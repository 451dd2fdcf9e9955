-- ===== src/Common/Examples.antt =====
-- src/common.hpp on a length just past a page.
use kvtier.Prelude.{◌≡◌, refl}
use kvtier.Common.{page_align, align_up}

aligned : (page_align 4096 ≡ 4096) × (page_align 4097 ≡ 8192)
unfolding page_align align_up
aligned = (refl, refl)
