-- ===== src/Examples/Types.antt =====
-- The type repository on its own primitives and a composite.
use windy_public.Prelude.{string_eq, ◌≡◌, refl, []}
use windy_public.KeyMap.{insert}
use windy_public.Project.Types.{ptr, named, int, array}
use windy_public.Project.TypeManager.{CompositeType, new_manager, add_composite, render, structure}
use windy_public.Project.TypeManager.Resolve.{
  IsSettled, add_composite-IsConsistent, new_manager-IsConsistent,
}

abbrev point : CompositeType
point = record { kind = structure; name = "POINT"; size = 8; align = 4; fields = []; variants = [] }

add_composite-IsConsistent_example :
    IsSettled (add_composite new_manager point).names (named "POINT")
unfolding add_composite insert
add_composite-IsConsistent_example =
    add_composite-IsConsistent new_manager point new_manager-IsConsistent "POINT"

renders : render (ptr (array (int 32) 12)) ≡ "int32[12]*"
unfolding render
renders = refl
