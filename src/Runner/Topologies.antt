-- ===== src/Runner/Topologies.antt =====
-- topos/__init__.py: the tables `TOPOS` and `TOPO_CONFIGS`.
use minitopo.Base.{[]}
use minitopo.Base.Dict.{Dict, insert}
use minitopo.Registry.{Classes, named, nothing, first, register}

-- `MultiInterfaceTopo` and `MultiInterfaceMultiClientTopo`, or their configurations.
pub data TopoClass : Type 0 where
  multi_interface_class multi_client_class : TopoClass

-- The subclasses of `Topo`, and those of `TopoConfig`: the second is a subclass of the first.
abbrev topo_classes : Classes TopoClass
topo_classes =
    first
      (named "MultiIf" multi_interface_class
        (first (named "MultiIfMultiClient" multi_client_class nothing) nothing))
      nothing

-- `TOPOS`, and `TOPO_CONFIGS`
unfoldable pub topos : Dict TopoClass
unfolding register insert
topos = register [] topo_classes
